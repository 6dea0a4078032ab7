-- ===== src/Session/Tidy/Rounds.antt =====
-- The loop of `handle_events` (app/src/main/cpp/session.c) as steps, and what holds in every state
-- that it reaches.
use mobile_injection.Base.{
  ℕ, zero, suc, ◌+◌, ◌≡◌, false, ltb, List, ◌∷◌, ℤ, pos, ◌*ℤ◌, if◌then◌else◌, All, Bool-cases, inl,
  inr,
}
use mobile_injection.Base.Run.{
  ok, EachOk, EachOk-bind, EachOk-ok, EachOk-cases, EachOk-value, EachOk-map,
}
use mobile_injection.Types.{NgSession, Arguments}
use mobile_injection.System.{System, Trace, Event, Waited}
use mobile_injection.Ip.Handle.{Settings}
use mobile_injection.Session.Count.{count_sessions}
use mobile_injection.Session.Allowed.{check_allowed}
use mobile_injection.Session.Loop.{Loop, Waiting, prepare, poll, loop_round, loop_rounds}
use mobile_injection.Session.Tidy.{IsTidySession}
use mobile_injection.Session.Tidy.Checks.{
  count_sessions-IsTidy, check_sessions-IsTidy, check_allowed-IsTidy,
}
use mobile_injection.Session.Tidy.Events.{TidyServed, serve_events-IsTidy}

abbrev pub TidyLoop : Loop → Type 0
TidyLoop l = All IsTidySession l.list

module _ (rounds : ℕ) (cfg : Settings) (sys : System) (args : Arguments) (maxsessions : ℕ) where
  -- The states that the loop reaches from one: a round is taken while the loop is not left.
  pub data Reaches : Loop → Loop → Type 0 where
    start : {l : Loop} → Reaches l l
    round :
        {l m n : Loop}
        → Reaches l m
        → m.done ≡ false
        → loop_round rounds cfg sys args maxsessions m ≡ ok n
        → Reaches l n

  prepare-IsTidy : (l : Loop) → TidyLoop l → All IsTidySession (prepare sys maxsessions l).list
  unfolding prepare
  prepare-IsTidy l h =
      let c = count_sessions sys l.list l.trace in
      let counted = count_sessions-IsTidy sys l.list l.trace h in
      let tr1 : Trace = Event.asked_ms ∷ c.trace in
      let checked =
        check_sessions-IsTidy sys c.sessions maxsessions (sys.time tr1) (pos 3600) c.list
          (Event.asked_time ∷ tr1) counted in
      elim (Bool-cases (ltb (l.last_check + 100) (sys.ms c.trace))) [
        | inl due ↦ rw due checked
        | inr early ↦ rw early counted
      ]

  poll-IsTidy :
      (w : Waiting) (r : Waited) (tr : Trace)
      → All IsTidySession w.list
      → EachOk TidyLoop (poll rounds cfg sys args maxsessions w r tr)
  unfolding poll
  poll-IsTidy w (Waited.ready events) tr h =
      EachOk-bind TidyServed TidyLoop _ _
        (serve_events-IsTidy rounds cfg sys args w.sessions maxsessions events w.list tr h)
        (λ r k. k)
  poll-IsTidy w Waited.wait_again tr h = h
  poll-IsTidy w Waited.wait_failed tr h = h

  loop_round-IsTidy :
      (l : Loop) → TidyLoop l → EachOk TidyLoop (loop_round rounds cfg sys args maxsessions l)
  unfolding loop_round
  loop_round-IsTidy l h =
      let w = prepare sys maxsessions l in
      let timeout : ℤ = if w.recheck then pos 100 else w.timeout *ℤ pos 1000 in
      poll-IsTidy w (sys.wait w.trace timeout) (Event.waited timeout ∷ w.trace) (prepare-IsTidy l h)

  reaches-IsTidy : {l n : Loop} → Reaches l n → TidyLoop l → TidyLoop n
  reaches-IsTidy start h = h
  reaches-IsTidy (round {m = m} {n = n} before going e) h =
      EachOk-ok TidyLoop (loop_round rounds cfg sys args maxsessions m) n
        (loop_round-IsTidy m (reaches-IsTidy before h)) e

  -- What the loop returns is a state that it reaches.
  loop_rounds-Reaches :
      (fuel : ℕ) (l m : Loop)
      → Reaches l m
      → EachOk (λ n. Reaches l n) (loop_rounds fuel rounds cfg sys args maxsessions m)
  unfolding loop_rounds
  loop_rounds-Reaches zero l m h = tt
  loop_rounds-Reaches (suc fuel) l m h =
      EachOk-cases (λ n. Reaches l n) m.done _ _ (λ left. h)
        (λ going.
          EachOk-value (λ n. Reaches l n) (loop_round rounds cfg sys args maxsessions m) _
            (λ n e. loop_rounds-Reaches fuel l n (round h going e)))

  -- So the invariant holds of what the loop returns, too.
  loop_rounds-IsTidy :
      (fuel : ℕ) (l : Loop)
      → TidyLoop l
      → EachOk TidyLoop (loop_rounds fuel rounds cfg sys args maxsessions l)
  loop_rounds-IsTidy fuel l h =
      EachOk-map (loop_rounds fuel rounds cfg sys args maxsessions l)
        (loop_rounds-Reaches fuel l l start) (λ n reached. reaches-IsTidy reached h)

  -- Whatever packets, answers and events come: from a list in which no session that is over holds a socket,
  -- the loop of `handle_events`, which ends the sessions of an earlier thread first, reaches only
  -- states in whose list no session that is over holds one.
  pub handle_events-IsTidy :
      (list : List NgSession) (tr : Trace) (n : Loop)
      → All IsTidySession list
      → let r = check_allowed sys list tr in
        Reaches (record { done = false; last_check = 0; list = r.0; trace = r.1 }) n
        → All IsTidySession n.list
  handle_events-IsTidy list tr n all reached =
      reaches-IsTidy reached (check_allowed-IsTidy sys list tr all)
