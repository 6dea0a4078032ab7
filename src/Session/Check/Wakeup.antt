-- ===== src/Session/Check/Wakeup.antt =====
-- How long `handle_events` (app/src/main/cpp/session.c) waits at most: the timeout of "Check sessions".
use mobile_injection.Base.{
  ℕ, ◌≡◌, arith, Bool, false, ◌&&◌, List, [], ◌∷◌, ℤ, pos, ◌+ℤ◌, ◌-ℤ◌, ltb_ℤ, is_pos, All,
  Bool-cases, inl, inr, if◌then◌else◌,
}
use mobile_injection.Types.{NgSession}
use mobile_injection.System.{System, Trace}
use mobile_injection.Session.Count.{is_active}
use mobile_injection.Session.Check.{check_session, deadline, shorten, next_timeout, check_sessions}

ltb_ℤ-trans_false : (a b c : ℤ) → ltb_ℤ b a ≡ false → ltb_ℤ c b ≡ false → ltb_ℤ c a ≡ false
ltb_ℤ-trans_false a b c h k = ground arith

ltb_ℤ-irrefl : (a : ℤ) → ltb_ℤ a a ≡ false
ltb_ℤ-irrefl a = ground arith

shorten-le : (stimeout timeout : ℤ) → ltb_ℤ timeout (shorten stimeout timeout) ≡ false
shorten-le stimeout timeout = ground arith

shorten-covers :
    (active : Bool) (stimeout timeout : ℤ)
    → let shorter = if active then shorten stimeout timeout else timeout in
      (active && is_pos stimeout && ltb_ℤ stimeout shorter) ≡ false
shorten-covers active stimeout timeout = ground arith

covered_under :
    (active positive : Bool) (left timeout shorter : ℤ)
    → (active && positive && ltb_ℤ left timeout) ≡ false
    → ltb_ℤ timeout shorter ≡ false
    → (active && positive && ltb_ℤ left shorter) ≡ false
covered_under active positive left timeout shorter covered le = ground arith

-- The time a session still has, in seconds, does not lie under the timeout.
abbrev pub IsCovered : (sessions maxsessions now : ℕ) → (timeout : ℤ) → NgSession → Type 0
IsCovered n m now timeout s =
    let left = deadline n m s -ℤ pos now +ℤ pos 1 in
    (is_active s && is_pos left && ltb_ℤ left timeout) ≡ false

next_timeout-le :
    (n m now : ℕ) (s : NgSession) (timeout : ℤ)
    → ltb_ℤ timeout (next_timeout n m now s timeout) ≡ false
unfolding next_timeout
next_timeout-le n m now s timeout = elim (Bool-cases (is_active s)) [
  | inl e ↦ rw e (shorten-le (deadline n m s -ℤ pos now +ℤ pos 1) timeout)
  | inr e ↦ rw e (ltb_ℤ-irrefl timeout)
]

next_timeout-IsCovered :
    (n m now : ℕ) (s : NgSession) (timeout : ℤ)
    → IsCovered n m now (next_timeout n m now s timeout) s
unfolding next_timeout
next_timeout-IsCovered n m now s timeout =
    shorten-covers (is_active s) (deadline n m s -ℤ pos now +ℤ pos 1) timeout

check_sessions-le :
    (sys : System) (n m now : ℕ) (timeout : ℤ) (list : List NgSession) (tr : Trace)
    → ltb_ℤ timeout (check_sessions sys n m now timeout list tr).timeout ≡ false
unfolding check_sessions
check_sessions-le sys n m now timeout [] tr = ltb_ℤ-irrefl timeout
check_sessions-le sys n m now timeout (s ∷ rest) tr =
    let (del, s1, tr1) = check_session sys n m s tr in
    let shorter = if del then timeout else next_timeout n m now s1 timeout in
    let le : ltb_ℤ timeout shorter ≡ false = elim (Bool-cases del) [
      | inl e ↦ rw e (ltb_ℤ-irrefl timeout)
      | inr e ↦ rw e (next_timeout-le n m now s1 timeout)
    ] in
    ltb_ℤ-trans_false (check_sessions sys n m now shorter rest tr1).timeout shorter timeout
      (check_sessions-le sys n m now shorter rest tr1) le

-- After the loop over the sessions the timeout is no longer than the one it started from, nor than the time
-- to the deadline of any active session that is left and has not reached it.
pub check_sessions-wakes :
    (sys : System) (n m now : ℕ) (timeout : ℤ) (list : List NgSession) (tr : Trace)
    → let r = check_sessions sys n m now timeout list tr in
      (ltb_ℤ timeout r.timeout ≡ false) × All (IsCovered n m now r.timeout) r.list
unfolding check_sessions
check_sessions-wakes sys n m now timeout [] tr = (ltb_ℤ-irrefl timeout, tt)
check_sessions-wakes sys n m now timeout (s ∷ rest) tr =
    let (del, s1, tr1) = check_session sys n m s tr in
    let shorter = next_timeout n m now s1 timeout in
    let later = check_sessions sys n m now shorter rest tr1 in
    let left = deadline n m s1 -ℤ pos now +ℤ pos 1 in
    (
      check_sessions-le sys n m now timeout (s ∷ rest) tr,
      elim (Bool-cases del) [
        | inl e ↦ rw e (check_sessions-wakes sys n m now timeout rest tr1).1
        | inr e ↦ rw e (
          covered_under (is_active s1) (is_pos left) left shorter later.timeout
              (next_timeout-IsCovered n m now s1 timeout)
              (check_sessions-le sys n m now shorter rest tr1),
          (check_sessions-wakes sys n m now shorter rest tr1).1,
        )
      ],
    )
