-- ===== src/Http/Headers/Short.antt =====
-- `get_header` (app/src/main/cpp/http.c) on too little data.
use mobile_injection.Base.{ℕ, ◌<◌, ◌≡◌, refl, arith, Bool, List, [], ◌∷◌, length}
use mobile_injection.Base.Run.{fault}
use mobile_injection.Http.Headers.{get_header}

-- Of data of fewer than two bytes `get_header` reads bytes that are not there: the length of the data
-- wraps to that of almost all memory.
pub get_header-short :
    (name bytes : List ℕ) (has_value : Bool)
    → length bytes < 2
    → get_header name bytes (length bytes) has_value ≡ fault
unfolding get_header
get_header-short name [] has_value h = refl
get_header-short name (c ∷ []) has_value h = refl
get_header-short name (c ∷ d ∷ bytes) has_value h = absurd (omega arith)
