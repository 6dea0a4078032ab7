-- ===== src/Http/Request.antt =====
-- That `patch_http_url` (app/src/main/cpp/http.c) returns: the data, a NUL and further bytes are in memory.
use mobile_injection.Base.{
  ℕ, zero, suc, ◌+◌, ◌≤◌, ◌≡◌, refl, ◌∙◌, ap, arith, inl, inr, ◌⊎◌, ==→eq, Bool, true, false, ◌&&◌,
  ltb, leb, ◌==◌, Option, none, some, List, [], ◌∷◌, ◌++◌, drop, length, length-drop, length-append,
  Bool-cases, Option-cases, leb→le,
}
use mobile_injection.Base.Run.{ok}
use mobile_injection.Base.Text.{codes}
use mobile_injection.Http.Find.{lower, same_text}
use mobile_injection.Http.Search.{IsFirst, find_data-IsFirst}
use mobile_injection.Http.Patch.{Word, words, find_word, starts_with, patch_http_url}
use mobile_injection.Http.Insertion.{
  Follows, HasNoWord, IsPatched, copy_host-IsHost, insert_url-Rewritten,
}

-- A text of printed characters.
abbrev has_no_nul : List ℕ → Bool
has_no_nul [] = true
has_no_nul (c ∷ cs) = ltb 0 c && has_no_nul cs

abbrev are_short : List Word → Bool
are_short [] = true
are_short ((first, rest) ∷ more) =
    (ltb 0 first && has_no_nul rest) && (leb (length rest) 9 && are_short more)

both-true : (a b : Bool) → a && b ≡ true → (a ≡ true) × (b ≡ true)
both-true true b h = (refl, h)
both-true false b h = absurd (grind (arith, h))

words-are_short : are_short words ≡ true
words-are_short = refl

-- A text that occurs at the start of the data ends before the NUL.
same_text-before_nul :
    (value bytes more : List ℕ)
    → has_no_nul value ≡ true
    → same_text value (bytes ++ 0 ∷ more) ≡ ok true
    → length value ≤ length bytes
unfolding same_text
same_text-before_nul [] bytes more clean same = omega arith
same_text-before_nul (v ∷ value) [] more clean same =
    let (above, rest) = both-true (ltb 0 v) (has_no_nul value) clean in
    elim (Bool-cases (lower v == lower 0)) [
      | inl e ↦ absurd (ground arith)
      | inr e ↦ absurd (grind (arith, rw e at same))
    ]
same_text-before_nul (v ∷ value) (d ∷ bytes) more clean same =
    let (above, rest) = both-true (ltb 0 v) (has_no_nul value) clean in
    elim (Bool-cases (lower v == lower d)) [
      | inl e ↦ omega (arith, same_text-before_nul value bytes more rest (rw e at same))
      | inr e ↦ absurd (grind (arith, rw e at same))
    ]

same_text-inside :
    (value : List ℕ) (p : ℕ) (bytes more : List ℕ)
    → has_no_nul value ≡ true
    → p ≤ length bytes
    → same_text value (drop p (bytes ++ 0 ∷ more)) ≡ ok true
    → p + length value ≤ length bytes
same_text-inside value zero bytes more clean h same =
    omega (arith, same_text-before_nul value bytes more clean same)
same_text-inside value (suc p) [] more clean h same = absurd (omega arith)
same_text-inside value (suc p) (d ∷ bytes) more clean h same =
    omega (arith, same_text-inside value p bytes more clean (omega arith) same)

-- Whether the memory begins with the text.
starts_with-lem :
    (value mem : List ℕ)
    → length value ≤ length mem
    → (b : Bool) × ((starts_with value mem ≡ ok b)
        × ((b ≡ false) ⊎ ((tail : List ℕ) × (mem ≡ value ++ tail))))
unfolding starts_with
starts_with-lem [] mem h = (true, (refl, inr (mem, refl)))
starts_with-lem (v ∷ value) [] h = absurd (omega arith)
starts_with-lem (v ∷ value) (d ∷ mem) h = elim (Bool-cases (d == v)) [
  | inr other ↦ (false, (rw other refl, inl refl))
  | inl same ↦
      let (b, (e, rest)) = starts_with-lem value mem (omega arith) in
      (
        b,
        (
          rw same e,
          elim rest [
            | inl differs ↦ inl differs
            | inr (tail, text) ↦ inr (tail, rw (==→eq d v same, text) refl)
          ],
        ),
      )
]

-- The offset behind a word lies in the data, or there is no word.
abbrev IsWord : (mem : List ℕ) (n : ℕ) → List Word → Option ℕ → Type 0
IsWord mem n ws none = HasNoWord mem n ws
IsWord mem n ws (some pos) = (pos ≤ n) × Follows mem ws pos

IsWord-later :
    (mem : List ℕ) (n first : ℕ) (rest : List ℕ) (ws : List Word) (r : Option ℕ)
    → IsFirst mem first (first ∷ rest) 0 n none
    → IsWord mem n ws r
    → IsWord mem n ((first, rest) ∷ ws) r
IsWord-later mem n first rest ws none h k = (h, k)
IsWord-later mem n first rest ws (some pos) h (inside, follows) = (inside, inr follows)

find_word-IsWord :
    (bytes more : List ℕ) (ws : List Word)
    → 9 ≤ length more
    → are_short ws ≡ true
    → (r : Option ℕ) × ((find_word (bytes ++ 0 ∷ more) (length bytes) ws ≡ ok r)
        × IsWord (bytes ++ 0 ∷ more) (length bytes) ws r)
unfolding find_word
find_word-IsWord bytes more [] room short = (none, (refl, tt))
find_word-IsWord bytes more ((first, rest) ∷ ws) room short =
    let (this, later) =
      both-true (ltb 0 first && has_no_nul rest) (leb (length rest) 9 && are_short ws) short in
    let (size, others) = both-true (leb (length rest) 9) (are_short ws) later in
    let below : length rest ≤ 9 = leb→le (length rest) 9 size in
    let mem = bytes ++ 0 ∷ more in
    let (found, (e, place)) =
      find_data-IsFirst mem (length bytes) first rest
        (omega (arith, length-append bytes (0 ∷ more), below)) in
    elim (Option-cases found) [
      | inl absent ↦
          let (r, (e', fits)) = find_word-IsWord bytes more ws room others in
          (
            r,
            (
              rw (e, absent) e',
              IsWord-later mem (length bytes) first rest ws r (rw absent at place) fits,
            ),
          )
      | inr (p, present) ↦
          let (inside, (same, earlier)) = rw present at place in
          (
            some (p + suc (length rest)),
            (
              rw (e, present) refl,
              (
                same_text-inside (first ∷ rest) p bytes more this (omega (arith, inside)) same,
                inl (p, (refl, same)),
              ),
            ),
          )
    ]

-- If a NUL and at least 516 more bytes stand in memory behind the data, `patch_http_url` returns. It changes
-- nothing if it finds no "Host: ", no method word, or "http:" right behind a method word. Otherwise, and
-- then no "http:" stands behind the word, it keeps all bytes of the data in order and puts one piece between two of them: "http://" and the text
-- behind the first "Host: ", up to a carriage return or to 511 bytes. The piece stands right behind
-- a place that reads as one of the method words, letters compared without case, and the new length is
-- the old one and that of the piece.
pub patch_http_url-IsPatched :
    (bytes more : List ℕ)
    → 516 ≤ length more
    → (r : Option (List ℕ)) × ((patch_http_url (bytes ++ 0 ∷ more) (length bytes) ≡ ok r)
        × IsPatched (bytes ++ 0 ∷ more) bytes r)
unfolding patch_http_url
patch_http_url-IsPatched bytes more room =
    let mem = bytes ++ 0 ∷ more in
    let size : length mem ≡ length bytes + suc (length more) = length-append bytes (0 ∷ more) in
    let (found, (e, place)) =
      find_data-IsFirst mem (length bytes) b'H' (codes "ost: ") (omega (arith, size)) in
    elim (Option-cases found) [
      | inl absent ↦ (none, (rw (e, absent) refl, inl (rw absent at place)))
      | inr (h, present) ↦
          let at_h : IsFirst mem b'H' (codes "Host: ") 0 (length bytes) (some h) =
            rw present at place in
          let (host, (copied, named)) =
            copy_host-IsHost 511 (drop (h + 6) mem)
              (omega (arith, size, at_h.0, length-drop (h + 6) mem)) in
          let (word, (searched, behind)) =
            find_word-IsWord bytes more words (omega arith) words-are_short in
          elim (Option-cases word) [
            | inl absent ↦ (
              none,
              (rw (e, present, copied, searched, absent) refl, inr (inl (rw absent at behind))),
            )
            | inr (pos1, there) ↦
                let (within, follows) = rw there at behind in
                let (patched, (compared, shows)) =
                  starts_with-lem (codes "http:") (drop pos1 mem)
                    (omega (arith, size, within, length-drop pos1 mem)) in
                elim (Bool-cases patched) [
                  | inr fresh ↦
                      let (new_data, (inserted, rewritten)) =
                        insert_url-Rewritten bytes more pos1 h host within follows
                          (compared ∙ ap ok fresh) at_h named in
                      (
                        some new_data,
                        (
                          rw (e, present, copied, searched, there, compared, fresh) inserted,
                          rewritten,
                        ),
                      )
                  | inl absolute ↦ (
                    none,
                    (
                      rw (e, present, copied, searched, there, compared, absolute) refl,
                      elim shows [
                        | inl differs ↦ absurd (grind (arith, absolute, differs))
                        | inr (tail, text) ↦ inr (inr (pos1, (follows, (tail, text))))
                      ],
                    ),
                  )
                ]
          ]
    ]
