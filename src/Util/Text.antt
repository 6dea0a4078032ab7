-- ===== src/Util/Text.antt =====
-- `trim` and `hex` of app/src/main/cpp/util.c. A text is the list of its characters before the NUL.
pub mod Printed
pub mod Trimmed
use mobile_injection.Base.{
  ℕ, zero, suc, ◌+◌, ◌-◌, ◌/◌, ◌%◌, Bool, true, false, none, some, List, [], ◌∷◌, ltb, take, length,
  get_elem?, if◌then◌else◌,
}

-- while (isspace(*str)) str++; isspace is a parameter, which is false for the NUL.
unfoldable pub skip_spaces : (isspace : ℕ → Bool) → List ℕ → List ℕ
skip_spaces isspace [] = []
skip_spaces isspace (c ∷ rest) =
    let next = skip_spaces isspace rest in if isspace c then next else c ∷ rest

abbrev pub char_at : List ℕ → ℕ → ℕ
char_at text i = elim (get_elem? text i) [ none ↦ 0 | some c ↦ c ]

-- while (end > str && isspace(*end)) end--; `end` counts from `str`.
unfoldable pub last_char : (isspace : ℕ → Bool) (text : List ℕ) (end : ℕ) → ℕ
last_char isspace text zero = zero
last_char isspace text (suc end) =
    let next = last_char isspace text end in
    if isspace (char_at text (suc end)) then next else suc end

-- The text is cut behind its last character that is not a space.
abbrev pub cut : (isspace : ℕ → Bool) → List ℕ → List ℕ
unfolding last_char
cut isspace [] = []
cut isspace (c ∷ rest) = take (last_char isspace (c ∷ rest) (length rest) + 1) (c ∷ rest)

unfoldable pub trim : (isspace : ℕ → Bool) → List ℕ → List ℕ
unfolding skip_spaces last_char
trim isspace str = cut isspace (skip_spaces isspace str)

-- "0123456789ABCDEF"[n]
abbrev pub hex_str : ℕ → ℕ
hex_str n = if ltb n 10 then b'0' + n else 55 + n

-- Two digits and a blank for every byte.
unfoldable pub hex : List ℕ → List ℕ
hex [] = []
hex (x ∷ rest) = hex_str (x / 16 % 16) ∷ hex_str (x % 16) ∷ b' ' ∷ hex rest
