-- ===== src/Util/Checksum/Laws.antt =====
-- `calc_checksum` of app/src/main/cpp/util.c as a one's complement sum.
use mobile_injection.Base.{
  ℕ, ◌+◌, ◌-◌, ◌*◌, ◌%◌, ◌^◌, ◌<◌, ◌≤◌, ◌==◌, ◌≡◌, ◌↔◌, ◌∙◌, ap, arith, List, [], ◌∷◌, ◌++◌, length,
  if◌then◌else◌, IsBytes, not16,
}
use mobile_injection.Util.Checksum.{sum_words, fold_carries, calc_checksum}

-- The sum of the little-endian words of a buffer, with no wrap.
unfoldable pub word_sum : List ℕ → ℕ
word_sum [] = 0
word_sum (a ∷ []) = a
word_sum (a ∷ b ∷ rest) = a + 256 * b + word_sum rest

-- The representative of a number modulo 0xffff that is 0 only for 0.
unfoldable pub ones_complement : ℕ → ℕ
ones_complement t = if t == 0 then 0 else (t - 1) % 0xffff + 1

sum_words-eq-word_sum :
    (s : ℕ) (xs : List ℕ) → s + word_sum xs < 2 ^ 32 → sum_words s xs ≡ s + word_sum xs
unfolding sum_words word_sum
sum_words-eq-word_sum s [] h = omega arith
sum_words-eq-word_sum s (a ∷ []) h = omega arith
sum_words-eq-word_sum s (a ∷ b ∷ xs) h =
    let here : (s + (a + 256 * b)) % 2 ^ 32 ≡ s + (a + 256 * b) = omega arith in
    rw here (sum_words-eq-word_sum (s + (a + 256 * b)) xs (omega arith) ∙ omega arith)

fold_carries-eq-ones_complement : (t : ℕ) → t < 2 ^ 32 → fold_carries 3 t ≡ ones_complement t
unfolding fold_carries ones_complement
fold_carries-eq-ones_complement t h = ground arith

ones_complement-lt : (t : ℕ) → ones_complement t < 2 ^ 16
unfolding ones_complement
ones_complement-lt t = ground arith

-- If the words and the start value sum to less than 2 ^ 32, three rounds of folding end the loop
-- and the checksum is their one's complement sum.
pub calc_checksum-eq-ones_complement :
    (start : ℕ) (buffer : List ℕ)
    → start + word_sum buffer < 2 ^ 32
    → calc_checksum start buffer ≡ ones_complement (start + word_sum buffer)
unfolding calc_checksum
calc_checksum-eq-ones_complement start buffer h =
    rw (sum_words-eq-word_sum start buffer h, fold_carries-eq-ones_complement _ h)
      (omega (arith, ones_complement-lt (start + word_sum buffer)))

pub word_sum-append :
    (xs ys : List ℕ) → length xs % 2 ≡ 0 → word_sum (xs ++ ys) ≡ word_sum xs + word_sum ys
unfolding word_sum
word_sum-append [] ys h = omega arith
word_sum-append (x ∷ []) ys h = absurd (omega arith)
word_sum-append (x ∷ y ∷ xs) ys h = omega (arith, word_sum-append xs ys (omega arith))

pub ones_complement-add :
    (s t : ℕ) → ones_complement (ones_complement s + t) ≡ ones_complement (s + t)
unfolding ones_complement
ones_complement-add s t = ground arith

ones_complement-add_complement : (s : ℕ) → ones_complement (s + not16 (ones_complement s)) ≡ 0xffff
unfolding ones_complement
ones_complement-add_complement s = ground arith

-- A checksum continued over a second buffer is the checksum of the two buffers in a row, if the
-- first has an even length and the sum is less than 2 ^ 32.
pub calc_checksum-append :
    (start : ℕ) (xs ys : List ℕ)
    → length xs % 2 ≡ 0
    → start + word_sum xs + word_sum ys + 2 ^ 16 < 2 ^ 32
    → calc_checksum (calc_checksum start xs) ys ≡ calc_checksum start (xs ++ ys)
calc_checksum-append start xs ys even h =
    let first = calc_checksum-eq-ones_complement start xs (omega arith) in
    let small = ones_complement-lt (start + word_sum xs) in
    let split = word_sum-append xs ys even in
    let whole = calc_checksum-eq-ones_complement start (xs ++ ys) (omega (arith, split)) in
    rw
      (
        first,
        calc_checksum-eq-ones_complement (ones_complement (start + word_sum xs)) ys
            (omega (arith, small)),
        ones_complement-add (start + word_sum xs) (word_sum ys),
        whole,
      )
      (ap ones_complement (omega (arith, split)))

-- The last step of every packet builder: storing the complement of the checksum makes the whole sum
-- to 0xffff.
pub ones_complement_check :
    (start a b c : ℕ)
    → a + b ≡ start
    → c ≡ not16 (ones_complement start)
    → ones_complement (a + c + b) ≡ 0xffff
ones_complement_check start a b c e f =
    rw f (ap ones_complement (omega (arith, e)) ∙ ones_complement-add_complement start)

-- If the words and the start value sum to less than 2 ^ 32, the checksum is 0 exactly when that sum
-- is 0.
pub calc_checksum-zero_iff :
    (start : ℕ) (buffer : List ℕ)
    → start + word_sum buffer < 2 ^ 32
    → (calc_checksum start buffer ≡ 0) ↔ (start + word_sum buffer ≡ 0)
unfolding ones_complement
calc_checksum-zero_iff start buffer h =
    ground (arith, calc_checksum-eq-ones_complement start buffer h)

-- Bytes sum to at most 0xffff for each word.
pub word_sum-le : (xs : List ℕ) → IsBytes xs → 2 * word_sum xs ≤ 0xffff * length xs + 0xffff
unfolding word_sum
word_sum-le [] h = omega arith
word_sum-le (x ∷ []) h = omega arith
word_sum-le (x ∷ y ∷ xs) h = omega (arith, word_sum-le xs h.1.1)

-- A checksum that is continued over a second buffer.
pub calc_checksum-step :
    (s : ℕ) (ys : List ℕ)
    → s + word_sum ys + 2 ^ 16 < 2 ^ 32
    → calc_checksum (ones_complement s) ys ≡ ones_complement (s + word_sum ys)
calc_checksum-step s ys h =
    calc_checksum-eq-ones_complement (ones_complement s) ys (omega (arith, ones_complement-lt s))
    ∙ ones_complement-add s (word_sum ys)

pub not16-ones_complement-lt : (s : ℕ) → not16 (ones_complement s) < 2 ^ 16
unfolding ones_complement
not16-ones_complement-lt s = ground arith
