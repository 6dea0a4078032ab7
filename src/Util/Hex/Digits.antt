-- ===== src/Util/Hex/Digits.antt =====
-- Bytes printed in hexadecimal, for `hex2bytes` of app/src/main/cpp/util.c.
use mobile_injection.Base.{
  ℕ, ◌+◌, ◌/◌, ◌%◌, ◌<◌, ◌≡◌, refl, ap, arith, Bool, List, [], ◌∷◌, ltb, IsBytes, if◌then◌else◌,
}
use mobile_injection.Util.Hex.{char2nible, hex2bytes}

-- The digit of a nibble, in upper or lower case.
abbrev pub digit : (upper : Bool) (n : ℕ) → ℕ
digit upper n = if ltb n 10 then b'0' + n else if upper then 55 + n else 87 + n

unfoldable pub print_bytes : (upper : Bool) → List ℕ → List ℕ
print_bytes upper [] = []
print_bytes upper (x ∷ xs) = digit upper (x / 16) ∷ digit upper (x % 16) ∷ print_bytes upper xs

char2nible-digit : (upper : Bool) (n : ℕ) → n < 16 → char2nible (digit upper n) ≡ n
unfolding char2nible
char2nible-digit upper n h = ground arith

-- Bytes that are printed with two hexadecimal digits each, all in upper or all in lower case, are read
-- back by `hex2bytes`.
pub hex2bytes-print_bytes :
    (upper : Bool) (xs : List ℕ) → IsBytes xs → hex2bytes (print_bytes upper xs) ≡ xs
unfolding hex2bytes print_bytes
hex2bytes-print_bytes upper [] h = refl
hex2bytes-print_bytes upper (x ∷ xs) h =
    rw
      (
        char2nible-digit upper (x / 16) (omega arith),
        char2nible-digit upper (x % 16) (omega arith),
        hex2bytes-print_bytes upper xs h.1,
      )
      (ap (λ y. y ∷ xs) (ground arith))
