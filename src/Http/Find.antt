-- ===== src/Http/Find.antt =====
-- `find_data` of app/src/main/cpp/http.c: where a text first occurs, letters compared without case.
use mobile_injection.Base.{
  ℕ, zero, suc, ◌+◌, ◌-◌, Bool, true, false, not, ◌&&◌, ltb, leb, ◌==◌, Option, none, some, List,
  [], ◌∷◌, drop, if◌then◌else◌,
}
use mobile_injection.Base.Run.{◌>>=◌, Run, ok, fault, out_of_fuel, read}

-- tolower in the C locale.
abbrev pub lower : ℕ → ℕ
lower c = if leb b'A' c && leb c b'Z' then c + 32 else c

-- strncasecmp(value, data, strlen(value)) == 0; the comparison stops at the first difference.
unfoldable pub same_text : (value mem : List ℕ) → Run Bool
same_text [] mem = ok true
same_text (v ∷ value) [] = fault
same_text (v ∷ value) (d ∷ mem) =
    let rest = same_text value mem in if lower v == lower d then rest else ok false

-- `while (data[0] != value[0] && data_len > 2)`: the offset and the length where it stops. The fuel
-- is the length, which falls in every round.
unfoldable pub skip : (fuel : ℕ) (mem : List ℕ) (first p len : ℕ) → Run (ℕ × ℕ)
skip zero mem first p len = out_of_fuel
skip (suc fuel) mem first p len =
    let next = skip fuel mem first (p + 1) (len - 1) in
    do c ← read mem p; if not (c == first) && ltb 2 len then next else ok (p, len)

unfoldable pub find_loop :
    (fuel : ℕ) (mem : List ℕ) (first : ℕ) (value : List ℕ) (p len : ℕ) → Run (Option ℕ)
unfolding skip same_text
find_loop zero mem first value p len = out_of_fuel
find_loop (suc fuel) mem first value p len =
    let round = (do
      (p1, len1) ← skip (len + 1) mem first p len
      found ← same_text value (drop p1 mem)
      let next = find_loop fuel mem first value (p1 + 1) (len1 - 1)
      if found then ok (some p1) else next) in
    if ltb 2 len then round else ok none

-- The offset of the text `first ∷ rest` in the memory; `none` is the null pointer.
unfoldable pub find_data : (mem : List ℕ) (data_len first : ℕ) (rest : List ℕ) → Run (Option ℕ)
unfolding find_loop
find_data mem data_len first rest = find_loop (data_len + 1) mem first (first ∷ rest) 0 data_len
