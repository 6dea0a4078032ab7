-- ===== src/Http/Headers.antt =====
-- `next_header` and `get_header` of app/src/main/cpp/http.c. Memory is the list of the bytes from the
-- data pointer on, and a pointer an offset in it.
pub mod Short
use mobile_injection.Base.{
  ℕ, zero, suc, ◌+◌, ◌-◌, ◌*◌, ◌^◌, ◌%◌, Bool, true, false, ◌&&◌, ◌||◌, ltb, ◌==◌, List, [], ◌∷◌, ℤ,
  pos, negsuc, take, drop, length, if◌then◌else◌,
}
use mobile_injection.Base.Run.{◌>>=◌, Run, ok, out_of_fuel, read, read_bytes}
use mobile_injection.Http.Find.{same_text}

-- `while (*len > 2 && (*data)[0] != '\r' && (*data)[1] != '\n')`: the pointer and the length.
unfoldable pub skip_line : (fuel : ℕ) (mem : List ℕ) (p len : ℕ) → Run (ℕ × ℕ)
skip_line zero mem p len = out_of_fuel
skip_line (suc fuel) mem p len =
    let next = skip_line fuel mem (p + 1) (len - 1) in
    let second = (do d ← read mem (p + 1); if d == 10 then ok (p, len) else next) in
    let first = (do c ← read mem p; if c == 13 then ok (p, len) else second) in
    if ltb 2 len then first else ok (p, len)

-- "Find the length of the next header".
unfoldable pub header_length : (fuel : ℕ) (mem : List ℕ) (p len n : ℕ) → Run ℕ
header_length zero mem p len n = out_of_fuel
header_length (suc fuel) mem p len n =
    let next = header_length fuel mem p len (n + 1) in
    let second = (do d ← read mem (p + n + 1); if d == 10 then ok n else next) in
    let first = (do c ← read mem (p + n); if c == 13 then ok n else second) in
    if ltb (n + 1) len then first else ok n

-- The pointer, the length of the data, which is a size_t, and the length of the header.
unfoldable pub next_header : (mem : List ℕ) (p len : ℕ) → Run (ℕ × ℕ × ℕ)
unfolding skip_line header_length
next_header mem p len = do
  (p1, len1) ← skip_line (length mem + 1) mem p len
  let len2 = (len1 + 2 ^ 64 - 2) % 2 ^ 64
  n ← header_length (length mem + 1) mem (p1 + 2) len2 0
  ok (p1 + 2, len2, n)

abbrev pub is_blank : ℕ → Bool
is_blank c = c == 32 || c == 9

-- "Eat leading whitespace", for at most `room` characters: how many there are.
unfoldable pub blanks : (room : ℕ) (mem : List ℕ) (p : ℕ) → Run ℕ
blanks zero mem p = ok 0
blanks (suc room) mem p =
    let next = (do n ← blanks room mem (p + 1); ok (n + 1)) in
    do c ← read mem p; if is_blank c then next else ok 0

-- The bytes that strncpy copies: up to a NUL.
abbrev pub until_nul : List ℕ → List ℕ
until_nul [] = []
until_nul (c ∷ rest) = if c == 0 then [] else c ∷ until_nul rest

-- The value of a header of the length `len`, whose name has the length `n`: what is returned, and the
-- text behind `value`. `has_value` says that `value` is not NULL.
unfoldable pub header_value : (has_value : Bool) (mem : List ℕ) (p len n : ℕ) → Run (ℤ × List ℕ)
unfolding blanks
header_value has_value mem p len n = do
  more ← blanks (len - n) mem (p + n)
  let size = len - (n + more)
  let copied = (do
    bytes ← read_bytes (drop (p + n + more) mem) size
    ok (pos size, until_nul bytes))
  if has_value then copied else ok (negsuc 3, [])

-- A line of a length that is not 0 may be the header; one of the length 0 ends the headers.
unfoldable pub header_loop :
    (fuel : ℕ) (name : List ℕ) (has_value : Bool) (mem : List ℕ) (p len : ℕ) → Run (ℤ × List ℕ)
unfolding next_header header_value
header_loop zero name has_value mem p len = out_of_fuel
header_loop (suc fuel) name has_value mem p len = do
  (p1, len1, n) ← next_header mem p len
  let next = header_loop fuel name has_value mem p1 len1
  let end = if len1 == 0 then ok (negsuc 0, []) else ok (negsuc 1, [])
  let line = (do
    same ← same_text name (drop p1 mem)
    if same then header_value has_value mem p1 n (length name) else next)
  if n == 0 then end else if ltb (length name) n then line else next

unfoldable pub get_header : (name mem : List ℕ) (data_len : ℕ) (has_value : Bool) → Run (ℤ × List ℕ)
unfolding header_loop
get_header name mem data_len has_value = header_loop (length mem + 1) name has_value mem 0 data_len
