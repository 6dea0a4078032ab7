-- ===== src/Base/Lists.antt =====
-- Lists measured and indexed by native numbers. A list of numbers stands for the bytes that a C
-- pointer leads to; `drop n` is the pointer moved on by n.
use Prim.Native.Nat.{ℕ, zero, suc, ◌+◌, ◌-◌, ◌≤◌, ◌<◌, min}
use mathlib.Core.Path.{◌≡◌, refl, sym, ap, ◌∙◌}
use mathlib.Core.List.{List, [], ◌∷◌, ◌++◌, append_assoc}
use mathlib.Core.Option.{Option, none, some}
use native.Mathlib.Omega.{arith}

module _ {ℓ} {A : Type ℓ} where
  abbrev pub length : List A → ℕ
  length [] = 0
  length (x ∷ xs) = suc (length xs)

  abbrev pub get_elem? : List A → ℕ → Option A
  get_elem? [] i = none
  get_elem? (x ∷ xs) zero = some x
  get_elem? (x ∷ xs) (suc i) = get_elem? xs i

  abbrev pub take : ℕ → List A → List A
  take zero xs = []
  take (suc n) [] = []
  take (suc n) (x ∷ xs) = x ∷ take n xs

  abbrev pub drop : ℕ → List A → List A
  drop zero xs = xs
  drop (suc n) [] = []
  drop (suc n) (x ∷ xs) = drop n xs

  abbrev pub replicate : ℕ → A → List A
  replicate zero a = []
  replicate (suc n) a = a ∷ replicate n a

  -- Every element satisfies the predicate.
  abbrev pub All {κ} : (A → Type κ) → List A → Type κ
  All P [] = Unit
  All P (x ∷ xs) = P x × All P xs

module _ {ℓ} {A : Type ℓ} where
  pub length-append : (xs ys : List A) → length (xs ++ ys) ≡ length xs + length ys
  length-append [] ys = omega arith
  length-append (x ∷ xs) ys = omega (arith, length-append xs ys)

  pub length-drop : (n : ℕ) (xs : List A) → length (drop n xs) ≡ length xs - n
  length-drop zero xs = omega arith
  length-drop (suc n) [] = omega arith
  length-drop (suc n) (x ∷ xs) = omega (arith, length-drop n xs)

  pub length-take : (n : ℕ) (xs : List A) → length (take n xs) ≡ min n (length xs)
  length-take zero xs = omega arith
  length-take (suc n) [] = omega arith
  length-take (suc n) (x ∷ xs) = omega (arith, length-take n xs)

  pub length-replicate : (n : ℕ) (a : A) → length (replicate n a) ≡ n
  length-replicate zero a = refl
  length-replicate (suc n) a = ap suc (length-replicate n a)

  -- A read within the bounds returns a value.
  unfoldable pub get_elem?-lt :
      (xs : List A) (i : ℕ) → i < length xs → (a : A) × (get_elem? xs i ≡ some a)
  get_elem?-lt [] i h = absurd (omega arith)
  get_elem?-lt (x ∷ xs) zero h = (x, refl)
  get_elem?-lt (x ∷ xs) (suc i) h = get_elem?-lt xs i (omega arith)

  pub get_elem?-some : (xs : List A) (i : ℕ) (a : A) → get_elem? xs i ≡ some a → i < length xs
  get_elem?-some [] i a e = cc
  get_elem?-some (x ∷ xs) zero a e = omega arith
  get_elem?-some (x ∷ xs) (suc i) a e = omega (arith, get_elem?-some xs i a e)

  pub take-length-append : (xs ys : List A) → take (length xs) (xs ++ ys) ≡ xs
  take-length-append [] ys = refl
  take-length-append (x ∷ xs) ys = ap (λ t. x ∷ t) (take-length-append xs ys)

  pub drop-length-append : (xs ys : List A) → drop (length xs) (xs ++ ys) ≡ ys
  drop-length-append [] ys = refl
  drop-length-append (x ∷ xs) ys = drop-length-append xs ys

  pub All-append {κ} : (P : A → Type κ) (xs ys : List A) → All P xs → All P ys → All P (xs ++ ys)
  All-append P [] ys h k = k
  All-append P (x ∷ xs) ys h k = (h.0, All-append P xs ys h.1 k)

  pub All-split {κ} :
      (P : A → Type κ) (xs : List A) (x : A) (ys : List A)
      → All P (xs ++ (x ∷ ys))
      → All P xs × P x × All P ys
  All-split P [] x ys h = (tt, h.0, h.1)
  All-split P (y ∷ xs) x ys h =
      let (front, own, back) = All-split P xs x ys h.1 in ((h.0, front), own, back)

module _ {ℓ} {A : Type ℓ} where
  pub take_all : (n : ℕ) (xs : List A) → length xs ≤ n → take n xs ≡ xs
  take_all zero [] h = refl
  take_all zero (x ∷ xs) h = absurd (omega arith)
  take_all (suc n) [] h = refl
  take_all (suc n) (x ∷ xs) h = ap (λ t. x ∷ t) (take_all n xs (omega arith))

  pub take-append-drop : (n : ℕ) (xs : List A) → take n xs ++ drop n xs ≡ xs
  take-append-drop zero xs = refl
  take-append-drop (suc n) [] = refl
  take-append-drop (suc n) (x ∷ xs) = ap (λ t. x ∷ t) (take-append-drop n xs)

  drop_cong : (a b : ℕ) (xs : List A) → a ≡ b → drop a xs ≡ drop b xs
  drop_cong a b xs e = ap (λ k. drop k xs) e

  take_cong : (a b : ℕ) (xs : List A) → a ≡ b → take a xs ≡ take b xs
  take_cong a b xs e = ap (λ k. take k xs) e

  drop_nil : (k : ℕ) → drop {A = A} k [] ≡ []
  drop_nil zero = refl
  drop_nil (suc k) = refl

  take_nil : (k : ℕ) → take {A = A} k [] ≡ []
  take_nil zero = refl
  take_nil (suc k) = refl

  pub drop-drop : (n m : ℕ) (xs : List A) → drop n (drop m xs) ≡ drop (m + n) xs
  drop-drop n zero xs = drop_cong n (0 + n) xs (omega arith)
  drop-drop n (suc m) [] = rw (drop_nil n, drop_nil (suc m + n))
  drop-drop n (suc m) (x ∷ xs) =
      drop-drop n m xs ∙ drop_cong (suc (m + n)) (suc m + n) (x ∷ xs) (omega arith)

  pub drop-take : (n m : ℕ) (xs : List A) → drop n (take m xs) ≡ take (m - n) (drop n xs)
  drop-take zero m xs = take_cong m (m - 0) xs (omega arith)
  drop-take (suc n) zero xs = sym (take_cong (0 - suc n) 0 (drop (suc n) xs) (omega arith))
  drop-take (suc n) (suc m) [] = sym (take_nil (suc m - suc n))
  drop-take (suc n) (suc m) (x ∷ xs) =
      drop-take n m xs ∙ take_cong (m - n) (suc m - suc n) (drop n xs) (omega arith)

-- memcpy(buf + off, xs, length xs), where buf is long enough.
module _ {ℓ} {A : Type ℓ} where
  abbrev pub overwrite : List A → (off : ℕ) → List A → List A
  overwrite buf off xs = take off buf ++ (xs ++ drop (off + length xs) buf)

module _ {ℓ} {A : Type ℓ} where
  pub length-overwrite :
      (buf : List A) (off : ℕ) (xs : List A)
      → off + length xs ≤ length buf
      → length (overwrite buf off xs) ≡ length buf
  length-overwrite buf off xs h = omega (
    arith,
    length-append (take off buf) (xs ++ drop (off + length xs) buf),
    length-append xs (drop (off + length xs) buf),
    length-take off buf,
    length-drop (off + length xs) buf,
  )

  -- The bytes up to the end of the copy are those before it and the copy.
  pub take-overwrite :
      (buf : List A) (off : ℕ) (xs : List A)
      → off + length xs ≤ length buf
      → take (off + length xs) (overwrite buf off xs) ≡ take off buf ++ xs
  take-overwrite buf off xs h =
      let size : length (take off buf ++ xs) ≡ off + length xs =
        omega (arith, length-append (take off buf) xs, length-take off buf) in
      ap (λ t. take (off + length xs) t)
        (sym (append_assoc (take off buf) xs (drop (off + length xs) buf)))
      ∙ (ap (λ k. take k ((take off buf ++ xs) ++ drop (off + length xs) buf)) (sym size)
          ∙ take-length-append (take off buf ++ xs) (drop (off + length xs) buf))
