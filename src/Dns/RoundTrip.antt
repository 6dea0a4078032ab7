-- ===== src/Dns/RoundTrip.antt =====
-- What `get_qname` (app/src/main/cpp/dns.c) makes of an encoded name.
use mathlib.Core.List.{append_assoc}
use mobile_injection.Base.{
  ℕ, suc, ◌+◌, ◌-◌, ◌≡◌, ◌≤◌, ◌<◌, refl, sym, ap, ◌∙◌, arith, true, false, ◌==◌, leb, List, [], ◌∷◌,
  ◌++◌, pos, length, take, drop, All, length-append, take-length-append, take-append-drop,
  overwrite, take-overwrite, u16,
}
use mobile_injection.Base.Run.{ok, read}
use mobile_injection.Tls.Name.{read-drop}
use mobile_injection.Dns.{Walk, qname_result, get_qname, name_buffer}
use mobile_injection.Dns.Names.{
  encode_labels, dotted, IsLabel, lead, read-lead, IsAt, IsBehind, qname_loop-labels,
}

-- The labels with dots between them.
unfoldable pub joined : List (List ℕ) → List ℕ
joined [] = []
joined (l ∷ []) = l
joined (l ∷ k ∷ ls) = l ++ (b'.' ∷ joined (k ∷ ls))

dotted-joined : (l : List ℕ) (ls : List (List ℕ)) → dotted (l ∷ ls) ≡ joined (l ∷ ls) ++ (b'.' ∷ [])
unfolding dotted joined
dotted-joined l [] = refl
dotted-joined l (k ∷ ls) =
    ap (λ t. l ++ (b'.' ∷ t)) (dotted-joined k ls)
    ∙ sym (append_assoc l (b'.' ∷ joined (k ∷ ls)) (b'.' ∷ []))

length-dotted : (ls : List (List ℕ)) → length (dotted ls) ≡ length (encode_labels ls)
unfolding dotted encode_labels
length-dotted [] = refl
length-dotted (l ∷ ls) = omega (
  arith,
  length-append l (b'.' ∷ dotted ls),
  length-append l (encode_labels ls),
  length-dotted ls,
)

-- What the code returns for a name.
pub record IsName (memory : List ℕ) (datalen off : ℕ) (ls : List (List ℕ)) : Type 0 where
  pub out : List ℕ
  pub returns :
      get_qname (suc (length ls)) memory datalen off name_buffer
      ≡ ok (pos (off + length (encode_labels ls) + 1), out)
  pub name : take (length (encode_labels ls)) out ≡ joined ls ++ (0 ∷ [])

-- The walk that `get_qname` begins with.
abbrev first_walk : (off : ℕ) → List (List ℕ) → Walk
first_walk off ls = record {
  c = false;
  noff = 0;
  ptr = off;
  off = off;
  len = lead ls;
  qname = overwrite name_buffer 0 (0 ∷ []);
}

-- The end: the last dot is replaced, and the offset behind the name is returned.
qname_result-name :
    (off : ℕ) (l : List ℕ) (ls : List (List ℕ)) (w : Walk)
    → IsBehind (l ∷ ls) (first_walk off (l ∷ ls)) w
    → length (encode_labels (l ∷ ls)) ≤ 255
    → off + length (encode_labels (l ∷ ls)) < 65_535
    → let n = length (encode_labels (l ∷ ls)) in
      (qname_result w ≡ ok (pos (off + n + 1), overwrite w.qname (n - 1) (0 ∷ [])))
      × (take n (overwrite w.qname (n - 1) (0 ∷ [])) ≡ joined (l ∷ ls) ++ (0 ∷ []))
unfolding qname_result
qname_result-name off l ls w b short small =
    let n = length (encode_labels (l ∷ ls)) in
    let e = dotted-joined l ls in
    let size : suc (length (joined (l ∷ ls))) ≡ n =
      omega
        (arith, length-append (joined (l ∷ ls)) (b'.' ∷ []), ap length e, length-dotted (l ∷ ls)) in
    let noff : w.noff ≡ n = b.noff ∙ omega arith in
    let buffer = b.buffer in
    let whole : w.qname ≡ (joined (l ∷ ls) ++ (b'.' ∷ [])) ++ drop n w.qname =
      sym (take-append-drop n w.qname)
      ∙ ap (λ t. t ++ drop n w.qname) (ap (λ k. take k w.qname) (sym noff) ∙ (b.name ∙ e)) in
    let front : take (n - 1) w.qname ≡ joined (l ∷ ls) =
      ap (λ k. take k w.qname) (omega arith)
      ∙ (ap (λ t. take (length (joined (l ∷ ls))) t)
            (whole ∙ append_assoc (joined (l ∷ ls)) (b'.' ∷ []) (drop n w.qname))
          ∙ take-length-append (joined (l ∷ ls)) (b'.' ∷ drop n w.qname)) in
    let fits : leb (n - 1 + 1) (length w.qname) ≡ true = ground arith in
    let nonzero : (n == 0) ≡ false = ground arith in
    let ptr : u16 (w.ptr + 1) ≡ off + n + 1 = omega (arith, b.ptr) in
    (
      rw (b.len, noff, nonzero, b.c, ptr, fits) refl,
      ap (λ k. take k (overwrite w.qname (n - 1) (0 ∷ []))) (omega arith)
          ∙ (take-overwrite w.qname (n - 1) (0 ∷ []) (omega arith) ∙ ap (λ t. t ++ (0 ∷ [])) front),
    )

-- A name of labels of 1 to 63 bytes, at most 255 bytes with their lengths, that lies in a message of fewer
-- than 65,535 bytes: with one round for each label and one more `get_qname` returns the offset behind it, and
-- its buffer begins with the labels, joined by dots, and a NUL.
pub get_qname-encode_labels :
    (memory : List ℕ) (datalen off : ℕ) (l : List ℕ) (ls : List (List ℕ)) (tail : List ℕ)
    → drop off memory ≡ encode_labels (l ∷ ls) ++ (0 ∷ tail)
    → All IsLabel (l ∷ ls)
    → length (encode_labels (l ∷ ls)) ≤ 255
    → off + length (encode_labels (l ∷ ls)) ≤ datalen
    → datalen < 65_535
    → IsName memory datalen off (l ∷ ls)
unfolding get_qname
get_qname-encode_labels memory datalen off l ls tail rest labels short inside small =
    let at : IsAt memory datalen (l ∷ ls) (first_walk off (l ∷ ls)) tail = record {
      rest = rest;
      len = refl;
      inside = inside;
      room = omega arith;
      buffer = refl;
    } in
    let (w, e, b) =
      qname_loop-labels memory datalen (omega arith) (l ∷ ls) (suc (length (l ∷ ls)))
        (first_walk off (l ∷ ls)) tail labels at (omega arith) in
    let (r, name) = qname_result-name off l ls w b short (omega arith) in
    let len : read memory off ≡ ok (lead (l ∷ ls)) =
      read-drop off 0 off memory _ rest (omega arith) ∙ read-lead (l ∷ ls) tail in
    record {
      out = overwrite w.qname (length (encode_labels (l ∷ ls)) - 1) (0 ∷ []);
      returns = rw (len, e) r;
      name = name;
    }
