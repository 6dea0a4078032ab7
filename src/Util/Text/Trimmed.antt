-- ===== src/Util/Text/Trimmed.antt =====
-- What `trim` (app/src/main/cpp/util.c) takes away.
use mathlib.Core.Path.{subst}
use mobile_injection.Base.{
  ℕ, zero, suc, ◌+◌, ◌-◌, ◌≤◌, ◌<◌, ◌==◌, ==→eq, ◌≡◌, refl, sym, ap, ◌∙◌, arith, Bool, true, false,
  ◌⊎◌, inl, inr, List, [], ◌∷◌, ◌++◌, All, Bool-cases, take, drop, length, length-take,
  take-append-drop,
}
use mobile_injection.Util.Text.{skip_spaces, char_at, last_char, cut, trim}

char_at-take : (n : ℕ) (text : List ℕ) (i : ℕ) → i < n → char_at (take n text) i ≡ char_at text i
char_at-take zero text i h = absurd (omega arith)
char_at-take (suc n) [] i h = refl
char_at-take (suc n) (c ∷ text) zero h = refl
char_at-take (suc n) (c ∷ text) (suc i) h = char_at-take n text i (omega arith)

module _ (isspace : ℕ → Bool) where
  abbrev pub AreSpaces : List ℕ → Type 0
  AreSpaces = All (λ c. isspace c ≡ true)

  -- Nothing is left, or what is left begins and ends with a character that is not a space.
  abbrev pub IsTrimmed : List ℕ → Type 0
  IsTrimmed text =
      (text ≡ [])
      ⊎ ((isspace (char_at text 0) ≡ false) × (isspace (char_at text (length text - 1)) ≡ false))

  -- Where the loop from the end stops.
  record Stops (text : List ℕ) (end stop : ℕ) : Type 0 where
    below : stop ≤ end
    spaces : (i : ℕ) → stop < i → i ≤ end → isspace (char_at text i) ≡ true
    ends : (stop ≡ 0) ⊎ (isspace (char_at text stop) ≡ false)

  last_char-Stops : (text : List ℕ) (end : ℕ) → Stops text end (last_char isspace text end)
  unfolding last_char
  last_char-Stops text zero = record {
    below = omega arith;
    spaces = λ i h k. absurd (omega arith);
    ends = inl refl;
  }
  last_char-Stops text (suc end) = elim (Bool-cases (isspace (char_at text (suc end)))) [
    | inl space ↦
        let before = last_char-Stops text end in
        rw (space, last_char)
          (record {
            below = omega (arith, before.below);
            spaces = λ i h k. elim (Bool-cases (i == suc end)) [
              | inl last ↦ rw (==→eq i (suc end) last) space
              | inr earlier ↦ before.spaces i h (ground arith)
            ];
            ends = before.ends;
          })
    | inr letter ↦
        rw (letter, last_char)
          (record {
            below = omega arith;
            spaces = λ i h k. absurd (omega arith);
            ends = inr letter;
          })
  ]

  drop-AreSpaces :
      (n : ℕ) (text : List ℕ)
      → ((i : ℕ) → n ≤ i → i < length text → isspace (char_at text i) ≡ true)
      → AreSpaces (drop n text)
  drop-AreSpaces zero [] h = tt
  drop-AreSpaces zero (c ∷ text) h = (
    h 0 (omega arith) (omega arith),
    drop-AreSpaces zero text (λ i k l. h (suc i) (omega arith) (omega arith)),
  )
  drop-AreSpaces (suc n) [] h = tt
  drop-AreSpaces (suc n) (c ∷ text) h =
      drop-AreSpaces n text (λ i k l. h (suc i) (omega arith) (omega arith))

  skip_spaces_lem :
      (str : List ℕ)
      → (lead : List ℕ) × ((str ≡ lead ++ skip_spaces isspace str)
          × (AreSpaces lead
              × ((skip_spaces isspace str ≡ [])
                  ⊎ (isspace (char_at (skip_spaces isspace str) 0) ≡ false))))
  unfolding skip_spaces
  skip_spaces_lem [] = ([], (refl, (tt, inl refl)))
  skip_spaces_lem (c ∷ rest) = elim (Bool-cases (isspace c)) [
    | inl space ↦
        let (lead, (e, (spaces, ends))) = skip_spaces_lem rest in
        rw (space, skip_spaces) (c ∷ lead, (ap (λ t. c ∷ t) e, ((space, spaces), ends)))
    | inr letter ↦ rw (letter, skip_spaces) ([], (refl, (tt, inr letter)))
  ]

  -- A text that begins with a letter is cut behind its last letter.
  cut_lem :
      (c : ℕ) (rest : List ℕ)
      → isspace c ≡ false
      → (trail : List ℕ) × ((c ∷ rest ≡ cut isspace (c ∷ rest) ++ trail)
          × (AreSpaces trail × IsTrimmed (cut isspace (c ∷ rest))))
  unfolding last_char
  cut_lem c rest letter =
      let text = c ∷ rest in
      let stop = last_char isspace text (length rest) in
      let at = last_char-Stops text (length rest) in
      let below : stop ≤ length rest = at.below in
      let size : length (take (stop + 1) text) ≡ stop + 1 =
        omega (arith, length-take (stop + 1) text, below) in
      let end : isspace (char_at text stop) ≡ false = elim at.ends [
        | inl only ↦ subst (λ n. isspace (char_at text n) ≡ false) (sym only) letter
        | inr e ↦ e
      ] in
      let whole : length (take (stop + 1) text) - 1 ≡ stop = omega (arith, size) in
      (
        drop (stop + 1) text,
        (
          sym (take-append-drop (stop + 1) text),
          (
            drop-AreSpaces (stop + 1) text (λ i k l. at.spaces i (omega arith) (omega arith)),
            inr (
              ap isspace (char_at-take (stop + 1) text 0 (omega arith)) ∙ letter,
              subst (λ n. isspace (char_at (take (stop + 1) text) n) ≡ false) (sym whole)
                  (ap isspace (char_at-take (stop + 1) text stop (omega arith)) ∙ end),
            ),
          ),
        ),
      )

  cut_any :
      (text : List ℕ)
      → (text ≡ []) ⊎ (isspace (char_at text 0) ≡ false)
      → (trail : List ℕ) × ((text ≡ cut isspace text ++ trail)
          × (AreSpaces trail × IsTrimmed (cut isspace text)))
  unfolding last_char
  cut_any [] begins = ([], (refl, (tt, inl refl)))
  cut_any (c ∷ rest) (inl none) = absurd (nonempty none)
    where
      nonempty : c ∷ rest ≡ [] → ⊥
      nonempty h = cc
  cut_any (c ∷ rest) (inr letter) = cut_lem c rest letter

  -- The text is what `trim` returns, between spaces; and what it returns is empty, or begins and ends
  -- with a character that is not a space.
  pub trim_lem :
      (str : List ℕ)
      → (lead : List ℕ) × ((trail : List ℕ) × ((str ≡ lead ++ (trim isspace str ++ trail))
            × (AreSpaces lead × (AreSpaces trail × IsTrimmed (trim isspace str)))))
  unfolding trim
  trim_lem str =
      let (lead, (e, (before, begins))) = skip_spaces_lem str in
      let (trail, (f, (behind, trimmed))) = cut_any (skip_spaces isspace str) begins in
      (lead, (trail, (e ∙ ap (λ t. lead ++ t) f, (before, (behind, trimmed)))))
