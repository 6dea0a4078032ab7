-- ===== src/Dns/Names.antt =====
-- Names as DNS encodes them, for `get_qname` of app/src/main/cpp/dns.c.
use mobile_injection.Base.{
  ℕ, zero, suc, ◌+◌, ◌≡◌, ◌≤◌, ◌<◌, refl, sym, ap, ◌∙◌, arith, true, false, ◌==◌, leb, List, [],
  ◌∷◌, ◌++◌, length, take, drop, All, length-append, drop-drop, drop-length-append,
  take-length-append, overwrite, length-overwrite, take-overwrite, ltb, u8, u16,
}
use mathlib.Core.List.{append_assoc, append-nil}
use mobile_injection.Base.Run.{ok, read, read_bytes}
use mobile_injection.Tls.Name.{read-drop}
use mobile_injection.Dns.{Walk, copy_label, qname_loop}

-- The labels with their lengths.
unfoldable pub encode_labels : List (List ℕ) → List ℕ
encode_labels [] = []
encode_labels (l ∷ ls) = length l ∷ (l ++ encode_labels ls)

-- The labels with a dot behind each.
unfoldable pub dotted : List (List ℕ) → List ℕ
dotted [] = []
dotted (l ∷ ls) = l ++ (b'.' ∷ dotted ls)

-- A label has 1 to 63 bytes.
abbrev pub IsLabel : List ℕ → Type 0
IsLabel l = (0 < length l) × (length l < 64)

-- The length that stands in front of the labels.
abbrev pub lead : List (List ℕ) → ℕ
lead [] = 0
lead (l ∷ ls) = length l

pub read-lead :
    (ls : List (List ℕ)) (tail : List ℕ) → read (encode_labels ls ++ (0 ∷ tail)) 0 ≡ ok (lead ls)
unfolding encode_labels
read-lead [] tail = refl
read-lead (l ∷ ls) tail = refl

-- Where the loop stands in front of labels.
pub record IsAt (memory : List ℕ) (datalen : ℕ) (ls : List (List ℕ)) (w : Walk) (tail : List ℕ)
    : Type 0 where
  pub rest : drop w.ptr memory ≡ encode_labels ls ++ (0 ∷ tail)
  pub len : w.len ≡ lead ls
  pub inside : w.ptr + length (encode_labels ls) ≤ datalen
  pub room : w.noff + length (encode_labels ls) ≤ 255
  pub buffer : length w.qname ≡ 256

-- What the loop makes of them.
pub record IsBehind (ls : List (List ℕ)) (w w1 : Walk) : Type 0 where
  pub c : w1.c ≡ w.c
  pub len : w1.len ≡ 0
  pub noff : w1.noff ≡ w.noff + length (encode_labels ls)
  pub ptr : w1.ptr ≡ w.ptr + length (encode_labels ls)
  pub name : take w1.noff w1.qname ≡ take w.noff w.qname ++ dotted ls
  pub buffer : length w1.qname ≡ 256

-- The state after a label.
abbrev after_label : List ℕ → List (List ℕ) → Walk → Walk
after_label l ls w = record w {
  noff = w.noff + (length l + 1);
  ptr = w.ptr + (length l + 1);
  len = lead ls;
  qname = overwrite w.qname w.noff (l ++ (b'.' ∷ []));
}

module _ (memory : List ℕ) (datalen : ℕ) (small : datalen < 65_536) where
  length-encode :
      (l : List ℕ) (ls : List (List ℕ))
      → length (encode_labels (l ∷ ls)) ≡ length l + 1 + length (encode_labels ls)
  unfolding encode_labels
  length-encode l ls = omega (arith, length-append l (encode_labels ls))

  drop-label :
      (l : List ℕ) (ls : List (List ℕ)) (w : Walk) (tail : List ℕ)
      → IsAt memory datalen (l ∷ ls) w tail
      → drop (w.ptr + 1) memory ≡ l ++ (encode_labels ls ++ (0 ∷ tail))
  unfolding encode_labels
  drop-label l ls w tail a =
      sym (drop-drop 1 w.ptr memory)
      ∙ (ap (λ xs. drop 1 xs) a.rest ∙ append_assoc l (encode_labels ls) (0 ∷ tail))

  drop-after :
      (l : List ℕ) (ls : List (List ℕ)) (w : Walk) (tail : List ℕ)
      → IsAt memory datalen (l ∷ ls) w tail
      → drop (w.ptr + (length l + 1)) memory ≡ encode_labels ls ++ (0 ∷ tail)
  drop-after l ls w tail a =
      ap (λ k. drop k memory) (omega arith)
      ∙ (sym (drop-drop (length l) (w.ptr + 1) memory)
          ∙ (ap (λ xs. drop (length l) xs) (drop-label l ls w tail a)
              ∙ drop-length-append l (encode_labels ls ++ (0 ∷ tail))))

  IsAt-after :
      (l : List ℕ) (ls : List (List ℕ)) (w : Walk) (tail : List ℕ)
      → IsAt memory datalen (l ∷ ls) w tail
      → IsAt memory datalen ls (after_label l ls w) tail
  IsAt-after l ls w tail a =
      let sum = length-encode l ls in
      let inside = a.inside in
      let room = a.room in
      let buffer = a.buffer in
      record {
        rest = drop-after l ls w tail a;
        len = refl;
        inside = omega arith;
        room = omega arith;
        buffer =
            length-overwrite w.qname w.noff (l ++ (b'.' ∷ []))
              (omega (arith, length-append l (b'.' ∷ [])))
            ∙ a.buffer;
      }

  copy_label-after :
      (l : List ℕ) (ls : List (List ℕ)) (w : Walk) (tail : List ℕ)
      → IsAt memory datalen (l ∷ ls) w tail
      → copy_label memory w ≡ ok (after_label l ls w)
  unfolding copy_label read_bytes
  copy_label-after l ls w tail a =
      let sum = length-encode l ls in
      let inside = a.inside in
      let room = a.room in
      let buffer = a.buffer in
      let next : read memory (w.ptr + (length l + 1)) ≡ ok (lead ls) =
        read-drop (w.ptr + (length l + 1)) 0 (w.ptr + (length l + 1)) memory _
          (drop-after l ls w tail a) (omega arith)
        ∙ read-lead ls tail in
      let long : ltb (length (l ++ (encode_labels ls ++ (0 ∷ tail)))) (length l) ≡ false =
        ground (arith, length-append l (encode_labels ls ++ (0 ∷ tail))) in
      let fits : leb (w.noff + length (l ++ (b'.' ∷ []))) (length w.qname) ≡ true =
        ground (arith, length-append l (b'.' ∷ [])) in
      let ptr : u16 (w.ptr + (length l + 1)) ≡ w.ptr + (length l + 1) = omega arith in
      let noff : u8 (w.noff + (length l + 1)) ≡ w.noff + (length l + 1) = omega arith in
      rw
        (
          a.len,
          drop-label l ls w tail a,
          long,
          take-length-append l (encode_labels ls ++ (0 ∷ tail)),
          fits,
          ptr,
          noff,
          next,
        )
        refl

  qname_loop-label :
      (fuel : ℕ) (l : List ℕ) (ls : List (List ℕ)) (w : Walk) (tail : List ℕ)
      → IsLabel l
      → IsAt memory datalen (l ∷ ls) w tail
      → qname_loop (suc fuel) memory datalen w ≡ qname_loop fuel memory datalen (after_label l ls w)
  unfolding qname_loop
  qname_loop-label fuel l ls w tail (positive, short) a =
      let sum = length-encode l ls in
      let inside = a.inside in
      let room = a.room in
      let nonzero : (length l == 0) ≡ false = ground arith in
      let label : leb 64 (length l) ≡ false = ground arith in
      let within : leb (w.ptr + 1 + length l) datalen ≡ true = ground arith in
      let space : leb (w.noff + length l) 255 ≡ true = ground arith in
      rw (copy_label-after l ls w tail a, a.len, nonzero, label, within, space) refl

  pub qname_loop-labels :
      (ls : List (List ℕ)) (fuel : ℕ) (w : Walk) (tail : List ℕ)
      → All IsLabel ls
      → IsAt memory datalen ls w tail
      → length ls < fuel
      → (w1 : Walk) × (qname_loop fuel memory datalen w ≡ ok w1) × IsBehind ls w w1
  unfolding qname_loop encode_labels dotted
  qname_loop-labels ls zero w tail all a h = absurd (omega arith)
  qname_loop-labels [] (suc fuel) w tail all a h = (
    w,
    rw a.len refl,
    record {
      c = refl;
      len = a.len;
      noff = omega arith;
      ptr = omega arith;
      name = sym (append-nil (take w.noff w.qname));
      buffer = a.buffer;
    },
  )
  qname_loop-labels (l ∷ ls) (suc fuel) w tail (label, all) a h =
      let w2 = after_label l ls w in
      let (w1, e, b) =
        qname_loop-labels ls fuel w2 tail all (IsAt-after l ls w tail a) (omega arith) in
      let sum = length-encode l ls in
      let room = a.room in
      let buffer = a.buffer in
      let size : w.noff + length (l ++ (b'.' ∷ [])) ≡ w.noff + (length l + 1) =
        omega (arith, length-append l (b'.' ∷ [])) in
      let copied : take w2.noff w2.qname ≡ take w.noff w.qname ++ (l ++ (b'.' ∷ [])) =
        ap (λ k. take k w2.qname) (sym size)
        ∙ take-overwrite w.qname w.noff (l ++ (b'.' ∷ [])) (omega arith) in
      (
        w1,
        qname_loop-label fuel l ls w tail label a ∙ e,
        record {
          c = b.c;
          len = b.len;
          noff = b.noff ∙ omega arith;
          ptr = b.ptr ∙ omega arith;
          name =
              b.name
              ∙ (ap (λ t. t ++ dotted ls) copied
                  ∙ (append_assoc (take w.noff w.qname) (l ++ (b'.' ∷ [])) (dotted ls)
                      ∙ ap (λ t. take w.noff w.qname ++ t)
                          (append_assoc l (b'.' ∷ []) (dotted ls))));
          buffer = b.buffer;
        },
      )
