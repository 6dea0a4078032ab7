-- ===== src/Held/Search.antt =====
-- What the search of a session finds in the list (app/src/main/cpp/udp.c and icmp.c).
use mobile_injection.Base.{
  ◌≡◌, refl, ap, Option, none, some, List, [], ◌∷◌, ◌++◌, All, Option-cases, inl, inr,
}
use mobile_injection.Types.{Ng, NgSession}
use mobile_injection.Held.{Found, behind, find_session}

module _ {A : Type 0} (pick : NgSession → Option (Ng A)) where
  -- Nothing, if the test picks no session, or the first that it picks.
  abbrev pub IsFirst : List NgSession → Found A → Type 0
  IsFirst list none = All (λ s. pick s ≡ none) list
  IsFirst list (some (front, t, back)) =
      (s : NgSession) × (list ≡ front ++ (s ∷ back))
      × (pick s ≡ some t)
      × All (λ u. pick u ≡ none) front

  behind-IsFirst :
      (u : NgSession) (rest : List NgSession) (r : Found A)
      → pick u ≡ none
      → IsFirst rest r
      → IsFirst (u ∷ rest) (behind u r)
  unfolding behind
  behind-IsFirst u rest none h k = (h, k)
  behind-IsFirst u rest (some (front, t, back)) h (s, whole, picked, first) =
      (s, ap (λ xs. u ∷ xs) whole, picked, (h, first))

  pub find_session-IsFirst : (list : List NgSession) → IsFirst list (find_session pick list)
  unfolding find_session
  find_session-IsFirst [] = tt
  find_session-IsFirst (s ∷ rest) = elim (Option-cases (pick s)) [
    | inl e ↦ rw e (behind-IsFirst s rest (find_session pick rest) e (find_session-IsFirst rest))
    | inr (t, e) ↦ rw e (s, refl, e, tt)
  ]
