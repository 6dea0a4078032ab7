-- ===== src/Util/Hex.antt =====
-- `char2nible` and `hex2bytes` of app/src/main/cpp/util.c. A text is the list of its characters
-- before the NUL.
pub mod Digits
use mobile_injection.Base.{ℕ, ◌+◌, ◌-◌, ◌*◌, ◌%◌, ◌&&◌, List, [], ◌∷◌, leb, ◌==◌, if◌then◌else◌}

-- The value of a digit, or 255.
unfoldable pub char2nible : ℕ → ℕ
char2nible c =
    if leb b'0' c && leb c b'9'
    then c - b'0'
    else if leb b'a' c && leb c b'f'
    then c - b'a' + 10
    else if leb b'A' c && leb c b'F'
    then c - b'A' + 10
    else 255

-- (uint8_t) (high << 4 | low), where each is a nibble or 255.
abbrev pub join_nibles : (high low : ℕ) → ℕ
join_nibles high low = if low == 255 then 255 else high % 16 * 16 + low

-- The last character of an odd number of them is joined with the NUL behind it.
unfoldable pub hex2bytes : List ℕ → List ℕ
unfolding char2nible
hex2bytes [] = []
hex2bytes (a ∷ []) = join_nibles (char2nible a) (char2nible 0) ∷ []
hex2bytes (a ∷ b ∷ rest) = join_nibles (char2nible a) (char2nible b) ∷ hex2bytes rest
