-- ===== src/Http/Search.antt =====
-- The loops of `find_data` (app/src/main/cpp/http.c).
use mathlib.Core.Path.{subst}
use mobile_injection.Base.{
  ℕ, zero, suc, ◌+◌, ◌-◌, ◌≡◌, ◌≤◌, ◌<◌, refl, arith, inl, inr, Bool, true, false, not, ◌&&◌, ltb,
  ltb→lt, ◌==◌, Option, none, some, List, [], ◌∷◌, drop, length, length-drop, Bool-cases, ==→eq,
}
use mobile_injection.Base.Run.{Run, ok, read, read-lt}
use mobile_injection.Http.Find.{lower, same_text, skip, find_loop, find_data}

same_text-ends :
    (value mem : List ℕ) → length value ≤ length mem → (b : Bool) × (same_text value mem ≡ ok b)
unfolding same_text
same_text-ends [] mem h = (true, refl)
same_text-ends (v ∷ value) [] h = absurd (omega arith)
same_text-ends (v ∷ value) (d ∷ mem) h = elim (Bool-cases (lower v == lower d)) [
  | inl e ↦ let (b, f) = same_text-ends value mem (omega arith) in (b, rw e f)
  | inr e ↦ (false, rw e)
]

-- Where the inner loop stops: not before the letter that it looks for.
record Skipped (mem : List ℕ) (first p len : ℕ) (r : Run (ℕ × ℕ)) : Type 0 where
  stop : ℕ
  left : ℕ
  returns : r ≡ ok (stop, left)
  same_end : stop + left ≡ p + len
  some_left : 0 < left
  less : left ≤ len
  passed : (q : ℕ) → p ≤ q → q < stop → ¬ (read mem q ≡ ok first)

other_letter :
    (mem : List ℕ) (first p c : ℕ) (long : Bool)
    → read mem p ≡ ok c
    → not (c == first) && long ≡ true
    → ¬ (read mem p ≡ ok first)
other_letter mem first p c long e goes h = grind arith

skip-Skipped :
    (fuel : ℕ) (mem : List ℕ) (first p len : ℕ)
    → len < fuel
    → 0 < len
    → p + len ≤ length mem
    → Skipped mem first p len (skip fuel mem first p len)
unfolding skip
skip-Skipped zero mem first p len enough nonempty inside = absurd (omega arith)
skip-Skipped (suc fuel) mem first p len enough nonempty inside =
    let (c, e) = read-lt mem p (omega arith) in
    elim (Bool-cases (not (c == first) && ltb 2 len)) [
      | inr stops ↦ record {
        stop = p;
        left = len;
        returns = rw (e, stops);
        same_end = refl;
        some_left = nonempty;
        less = omega arith;
        passed = λ q from before h. absurd (omega arith);
      }
      | inl goes ↦
          let long : 2 < len = ground arith in
          let next =
            skip-Skipped fuel mem first (p + 1) (len - 1) (omega arith) (omega arith)
              (omega arith) in
          record {
            stop = next.stop;
            left = next.left;
            returns = rw (e, goes) next.returns;
            same_end = omega (arith, next.same_end);
            some_left = next.some_left;
            less = omega (arith, next.less);
            passed = λ q from before h. elim (Bool-cases (p == q)) [
              | inl here ↦ other_letter mem first p c (ltb 2 len) e goes (rw (==→eq p q here) h)
              | inr later ↦ next.passed q (ground arith) before h
            ];
          }
    ]

-- No place from `p` on and before `end` where the first letter stands has the text.
abbrev pub IsAbsent : (mem : List ℕ) (first : ℕ) (value : List ℕ) (p end : ℕ) → Type 0
IsAbsent mem first value p end =
    (q : ℕ) → p ≤ q → q < end → read mem q ≡ ok first → same_text value (drop q mem) ≡ ok false

-- What the search may answer: an offset below `end` where the text occurs, for the first time, or
-- nothing, and the text occurs nowhere but in the last two bytes.
abbrev pub IsFirst : (mem : List ℕ) (first : ℕ) (value : List ℕ) (p end : ℕ) → Option ℕ → Type 0
IsFirst mem first value p end none = IsAbsent mem first value p (end - 2)
IsFirst mem first value p end (some at) =
    (at < end) × ((same_text value (drop at mem) ≡ ok true) × IsAbsent mem first value p at)

IsAbsent-from :
    (mem : List ℕ) (first : ℕ) (value : List ℕ) (p stop end : ℕ)
    → ((q : ℕ) → p ≤ q → q < stop → ¬ (read mem q ≡ ok first))
    → same_text value (drop stop mem) ≡ ok false
    → IsAbsent mem first value (stop + 1) end
    → IsAbsent mem first value p end
IsAbsent-from mem first value p stop end passed differs later q from before h =
    elim (Bool-cases (ltb q stop)) [
      | inl sooner ↦ absurd (passed q from (ltb→lt q stop sooner) h)
      | inr not_sooner ↦ elim (Bool-cases (stop == q)) [
        | inl here ↦
            subst (λ n. same_text value (drop n mem) ≡ ok false) (==→eq stop q here) differs
        | inr passes ↦ later q (ground arith) before h
      ]
    ]

IsFirst-from :
    (mem : List ℕ) (first : ℕ) (value : List ℕ) (p stop end : ℕ) (r : Option ℕ)
    → ((q : ℕ) → p ≤ q → q < stop → ¬ (read mem q ≡ ok first))
    → same_text value (drop stop mem) ≡ ok false
    → IsFirst mem first value (stop + 1) end r
    → IsFirst mem first value p end r
IsFirst-from mem first value p stop end none passed differs later =
    IsAbsent-from mem first value p stop (end - 2) passed differs later
IsFirst-from mem first value p stop end (some at) passed differs later =
    let (below, (occurs, absent)) = later in
    (below, (occurs, IsAbsent-from mem first value p stop at passed differs absent))

find_loop-IsFirst :
    (fuel : ℕ) (mem : List ℕ) (first : ℕ) (value : List ℕ) (p len : ℕ)
    → len < fuel
    → p + len + length value ≤ length mem
    → (r : Option ℕ) × ((find_loop fuel mem first value p len ≡ ok r)
        × IsFirst mem first value p (p + len) r)
unfolding find_loop
find_loop-IsFirst zero mem first value p len enough inside = absurd (omega arith)
find_loop-IsFirst (suc fuel) mem first value p len enough inside = elim (Bool-cases (ltb 2 len)) [
  | inr short ↦ (none, (rw short, λ q from before h. absurd (ground arith)))
  | inl long ↦
      let two = ltb→lt 2 len long in
      let at = skip-Skipped (len + 1) mem first p len (omega arith) (omega arith) (omega arith) in
      let (b, compared) =
        same_text-ends value (drop at.stop mem)
          (omega (arith, length-drop at.stop mem, at.same_end, at.some_left)) in
      elim (Bool-cases b) [
        | inl matches ↦ (
          some at.stop,
          (
            rw (long, at.returns, compared, matches),
            (
              omega (arith, at.same_end, at.some_left),
              (rw (compared, matches), λ q from before h. absurd (at.passed q from before h)),
            ),
          ),
        )
        | inr differs ↦
            let (r, (e, found)) =
              find_loop-IsFirst fuel mem first value (at.stop + 1) (at.left - 1)
                (omega (arith, at.less, at.some_left)) (omega (arith, at.same_end, at.some_left)) in
            let same : at.stop + 1 + (at.left - 1) ≡ p + len =
              omega (arith, at.same_end, at.some_left) in
            (
              r,
              (
                rw (long, at.returns, compared, differs) e,
                IsFirst-from mem first value p at.stop (p + len) r at.passed
                    (rw (compared, differs))
                    (subst (λ n. IsFirst mem first value (at.stop + 1) n r) same found),
              ),
            )
      ]
]

-- If the memory holds the data and as many bytes behind it as the text is long, `find_data` returns.
-- An answer is an offset within the data where the text occurs, letters compared without case, and it
-- occurs at no earlier place that has its first letter in the same case. If the answer is nothing,
-- it occurs at no such place of the data, but for the last two bytes.
pub find_data-IsFirst :
    (mem : List ℕ) (data_len first : ℕ) (rest : List ℕ)
    → data_len + suc (length rest) ≤ length mem
    → (r : Option ℕ) × ((find_data mem data_len first rest ≡ ok r)
        × IsFirst mem first (first ∷ rest) 0 data_len r)
unfolding find_data
find_data-IsFirst mem data_len first rest inside =
    let (r, (e, found)) =
      find_loop-IsFirst (data_len + 1) mem first (first ∷ rest) 0 data_len (omega arith)
        (omega arith) in
    let whole : 0 + data_len ≡ data_len = omega arith in (r, (e, rw whole at found))
