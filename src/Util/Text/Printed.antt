-- ===== src/Util/Text/Printed.antt =====
-- What `hex` (app/src/main/cpp/util.c) prints is read back by `hex2bytes`.
use mobile_injection.Base.{
  ℕ, ◌/◌, ◌%◌, ◌<◌, ◌≡◌, refl, arith, true, false, List, [], ◌∷◌, ◌==◌, IsBytes, if◌then◌else◌,
}
use mobile_injection.Util.Hex.{hex2bytes}
use mobile_injection.Util.Hex.Digits.{print_bytes, hex2bytes-print_bytes}
use mobile_injection.Util.Text.{hex_str, hex}

-- The characters that are not blanks.
abbrev pub without_blanks : List ℕ → List ℕ
without_blanks [] = []
without_blanks (c ∷ rest) = if c == b' ' then without_blanks rest else c ∷ without_blanks rest

hex_str-not_blank : (n : ℕ) → n < 16 → (hex_str n == b' ') ≡ false
hex_str-not_blank n h = ground arith

without_blanks-hex : (xs : List ℕ) → IsBytes xs → without_blanks (hex xs) ≡ print_bytes true xs
unfolding hex print_bytes
without_blanks-hex [] h = refl
without_blanks-hex (x ∷ xs) h =
    let small : x / 16 % 16 ≡ x / 16 = omega arith in
    rw
      (
        small,
        hex_str-not_blank (x / 16) (omega arith),
        hex_str-not_blank (x % 16) (omega arith),
        without_blanks-hex xs h.1,
      )
      refl

-- Bytes that `hex` prints are read back by `hex2bytes`, once the blanks are taken out.
pub hex2bytes-hex : (xs : List ℕ) → IsBytes xs → hex2bytes (without_blanks (hex xs)) ≡ xs
hex2bytes-hex xs h = rw (without_blanks-hex xs h) (hex2bytes-print_bytes true xs h)
