-- ===== src/Tls/Name.antt =====
-- Extensions of a client hello as bytes, for `parse_extensions` of app/src/main/cpp/tls.c.
use mathlib.Core.List.{append_assoc}
use mobile_injection.Base.{
  ℕ, zero, suc, ◌+◌, ◌*◌, ◌≡◌, ◌≢◌, ◌≤◌, ◌<◌, refl, ap, ◌∙◌, sym, arith, true, false, ◌&&◌, ltb,
  leb, ◌==◌, List, [], ◌∷◌, ◌++◌, All, drop, drop-drop, drop-length-append, length-append, length,
  get_elem?, le→ltb, lt→ltb, min,
}
use mobile_injection.Base.Run.{ok, read}
use mobile_injection.Tls.{
  be16_at, copy_name, server_name_loop, parse_server_name_extension, extensions_loop,
}

get_elem?-drop : (p : ℕ) (xs : List ℕ) (i : ℕ) → get_elem? xs (p + i) ≡ get_elem? (drop p xs) i
get_elem?-drop zero xs i = let e : zero + i ≡ i = omega arith in rw e
get_elem?-drop (suc p) [] i = refl
get_elem?-drop (suc p) (x ∷ xs) i =
    let e : suc p + i ≡ suc (p + i) = omega arith in rw e (get_elem?-drop p xs i)

pub read-drop : (p i j : ℕ) (mem xs : List ℕ) → drop p mem ≡ xs → p + i ≡ j → read mem j ≡ read xs i
read-drop p i j mem xs e f = rw (← f, ← e, read, get_elem?-drop p mem i)

-- An extension: its type and its length in two bytes each, and its data.
pub record Extension : Type 0 where
  pub type_high : ℕ
  pub type_low : ℕ
  pub high : ℕ
  pub low : ℕ
  pub content : List ℕ

abbrev pub encode_extension : Extension → List ℕ
encode_extension e = e.type_high ∷ e.type_low ∷ e.high ∷ e.low ∷ e.content

unfoldable pub encode_extensions : List Extension → List ℕ
encode_extensions [] = []
encode_extensions (e ∷ es) = encode_extension e ++ encode_extensions es

-- An extension of another type than server_name whose length is that of its data.
pub record IsOther (e : Extension) : Type 0 where
  pub other : (e.type_high == 0 && e.type_low == 0) ≡ false
  pub sized : e.high * 256 + e.low ≡ length e.content

-- The data of a server name extension that holds one host name.
abbrev pub name_entry : (list_high list_low high low : ℕ) (name : List ℕ) → List ℕ
name_entry list_high list_low high low name = list_high ∷ list_low ∷ 0 ∷ high ∷ low ∷ name

copy_name-append :
    (name tail : List ℕ) → All (λ c. c ≢ 0) name → copy_name (length name) (name ++ tail) ≡ ok name
unfolding copy_name
copy_name-append [] tail h = refl
copy_name-append (c ∷ name) tail (h, hs) =
    let nonzero : (c == 0) ≡ false = ground arith in rw (nonzero, copy_name-append name tail hs)

server_name_loop-name :
    (fuel a b high low : ℕ) (name tail hostname : List ℕ) (len : ℕ)
    → high * 256 + low ≡ length name
    → len ≡ 5 + length name
    → 0 < length name
    → length name ≤ 255
    → All (λ c. c ≢ 0) name
    → server_name_loop (suc fuel) (name_entry a b high low (name ++ tail)) len 2 hostname ≡ ok name
unfolding server_name_loop
server_name_loop-name fuel a b high low name tail hostname len sized whole some fits nonzero =
    let more : ltb (2 + 3) len ≡ true = lt→ltb (2 + 3) len (omega arith) in
    let inside : ltb len (2 + 3 + length name) ≡ false =
      le→ltb len (2 + 3 + length name) (omega arith) in
    let short : min (length name) 255 ≡ length name = omega arith in
    rw (more, sized, inside, short, copy_name-append name tail nonzero)

name_entry-parses :
    (a b high low : ℕ) (name tail hostname : List ℕ) (len : ℕ)
    → high * 256 + low ≡ length name
    → len ≡ 5 + length name
    → 0 < length name
    → length name ≤ 255
    → All (λ c. c ≢ 0) name
    → parse_server_name_extension (name_entry a b high low (name ++ tail)) len hostname ≡ ok name
unfolding parse_server_name_extension
name_entry-parses a b high low name tail hostname len sized whole some fits nonzero =
    let rounds : len + 1 ≡ suc len = omega arith in
    rw rounds
      (server_name_loop-name len a b high low name tail hostname len sized whole some fits nonzero)

pub drop-behind :
    (p n j : ℕ) (mem xs ys : List ℕ)
    → drop p mem ≡ xs ++ ys
    → n ≡ length xs
    → p + n ≡ j
    → drop j mem ≡ ys
drop-behind p n j mem xs ys e f g =
    rw (← g) (sym (drop-drop n p mem) ∙ (ap (drop n) e ∙ (rw f (drop-length-append xs ys))))

-- What a round reads of an extension that lies in memory at `pos`.
extension_len :
    (pos : ℕ) (mem : List ℕ) (t u high low : ℕ) (rest : List ℕ)
    → drop pos mem ≡ t ∷ u ∷ high ∷ low ∷ rest
    → (be16_at mem (pos + 2) ≡ ok (high * 256 + low))
      × ((read mem pos ≡ ok t) × (read mem (pos + 1) ≡ ok u))
extension_len pos mem t u high low rest e =
    let r2 : read mem (pos + 2) ≡ ok high = read-drop pos 2 (pos + 2) mem _ e refl in
    let r3 : read mem (pos + 2 + 1) ≡ ok low =
      read-drop pos 3 (pos + 2 + 1) mem _ e (omega arith) in
    (
      rw (r2, r3),
      (read-drop pos 0 pos mem _ e (omega arith), read-drop pos 1 (pos + 1) mem _ e refl),
    )

-- A server name extension with one host name and then any bytes.
abbrev pub name_extension : (ext_high ext_low a b high low : ℕ) (name tail : List ℕ) → List ℕ
name_extension ext_high ext_low a b high low name tail =
    0 ∷ 0 ∷ ext_high ∷ ext_low ∷ name_entry a b high low (name ++ tail)

module _ (ext_high ext_low a b high low : ℕ) (name tail hostname : List ℕ)
    (ext_sized : ext_high * 256 + ext_low ≡ 5 + length name)
    (sized : high * 256 + low ≡ length name) (some : 0 < length name) (fits : length name ≤ 255)
    (nonzero : All (λ c. c ≢ 0) name) where
  pub extensions_loop-name :
      (es : List Extension) (fuel pos : ℕ) (mem : List ℕ) (data_len : ℕ)
      → All IsOther es
      → length es < fuel
      → drop pos mem
        ≡ encode_extensions es ++ name_extension ext_high ext_low a b high low name tail
      → pos + (length (encode_extensions es) + (9 + length name)) ≤ data_len
      → extensions_loop fuel mem data_len pos hostname ≡ ok name
  unfolding extensions_loop encode_extensions
  extensions_loop-name es zero pos mem data_len others enough e within = absurd (omega arith)
  extensions_loop-name [] (suc fuel) pos mem data_len others enough e within =
      let (len, (t, u)) = extension_len pos mem 0 0 ext_high ext_low _ e in
      let more : leb (pos + 4) data_len ≡ true = ground arith in
      let inside : ltb data_len (pos + 4 + (5 + length name)) ≡ false =
        le→ltb data_len (pos + 4 + (5 + length name)) (omega arith) in
      let behind : drop (pos + 4) mem ≡ name_entry a b high low (name ++ tail) =
        drop-behind pos 4 (pos + 4) mem (0 ∷ 0 ∷ ext_high ∷ ext_low ∷ []) _ e refl refl in
      let parsed =
        name_entry-parses a b high low name tail hostname (5 + length name) sized refl some fits
          nonzero in
      rw (more, len, ext_sized, t, u, inside, behind, parsed)
  extensions_loop-name (x ∷ es) (suc fuel) pos mem data_len (other, others) enough e within =
      let rest = encode_extensions es ++ name_extension ext_high ext_low a b high low name tail in
      let whole : drop pos mem ≡ encode_extension x ++ rest =
        e ∙ append_assoc (encode_extension x) (encode_extensions es) _ in
      let (len, (t, u)) = extension_len pos mem x.type_high x.type_low x.high x.low _ whole in
      let size = length-append (encode_extension x) (encode_extensions es) in
      let more : leb (pos + 4) data_len ≡ true = ground (arith, size) in
      let behind : drop (pos + (4 + length x.content)) mem ≡ rest =
        drop-behind pos (4 + length x.content) (pos + (4 + length x.content)) mem
          (encode_extension x) rest whole (omega arith) refl in
      let next =
        extensions_loop-name es fuel (pos + (4 + length x.content)) mem data_len others
          (omega arith) behind (omega (arith, size)) in
      rw (more, len, other.sized, t, u, other.other, next)
