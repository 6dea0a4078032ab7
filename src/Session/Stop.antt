-- ===== src/Session/Stop.antt =====
-- How `handle_events` (app/src/main/cpp/session.c) comes to its end: a byte in the pipe.
use mobile_injection.Base.{ℕ, true, ◌||◌, ◌≡◌, refl, arith, List, [], ◌∷◌, pos, ◌*ℤ◌, if◌then◌else◌}
use mobile_injection.Base.Run.{Run, ok, EachOk, EachOk->>=, EachOk-bind, EachOk-cases}
use mobile_injection.Types.{NgSession, Arguments}
use mobile_injection.System.{System, Trace, Source, Waited}
use mobile_injection.Ip.Handle.{Settings}
use mobile_injection.Session.Events.{Served, serve_events}
use mobile_injection.Session.Loop.{Loop, Waiting, prepare, poll, loop_round}

-- The pipe is among the sources that are ready.
abbrev pub HasPipe : List (Source × ℕ) → Type 0
HasPipe [] = ⊥
HasPipe ((Source.pipe, events) ∷ rest) = Unit
HasPipe ((Source.tun, events) ∷ rest) = HasPipe rest
HasPipe ((Source.session k, events) ∷ rest) = HasPipe rest

abbrev IsEnd : Served → Type 0
IsEnd r = (r.stopping || r.error) ≡ true

IsEnd-next :
    (r : Served) (next : Run Served)
    → EachOk IsEnd next
    → EachOk IsEnd (if r.stopping then ok r else if r.error then ok r else next)
IsEnd-next r next h =
    EachOk-cases IsEnd r.stopping (ok r) (if r.error then ok r else next)
      (λ stopping. ground (arith, stopping))
      (λ going. EachOk-cases IsEnd r.error (ok r) next (λ error. ground (arith, error)) (λ fine. h))

module _ (rounds : ℕ) (cfg : Settings) (sys : System) (args : Arguments)
    (sessions maxsessions : ℕ) where
  serve_events-IsEnd :
      (events : List (Source × ℕ)) (list : List NgSession) (tr : Trace)
      → HasPipe events
      → EachOk IsEnd (serve_events rounds cfg sys args sessions maxsessions events list tr)
  unfolding serve_events
  serve_events-IsEnd [] list tr h = absurd h
  serve_events-IsEnd ((Source.pipe, events) ∷ rest) list tr h = refl
  serve_events-IsEnd ((Source.tun, events) ∷ rest) list tr h =
      EachOk->>= IsEnd _ _
        (λ (r : Served). IsEnd-next r _ (serve_events-IsEnd rest r.list r.trace h))
  serve_events-IsEnd ((Source.session k, events) ∷ rest) list tr h =
      EachOk->>= IsEnd _ _
        (λ (r : Served). IsEnd-next r _ (serve_events-IsEnd rest r.list r.trace h))

-- What epoll_wait answers in a round.
abbrev pub round_answer : System → (maxsessions : ℕ) → Loop → Waited
round_answer sys maxsessions l =
    let w = prepare sys maxsessions l in
    sys.wait w.trace (if w.recheck then pos 100 else w.timeout *ℤ pos 1000)

module _ (rounds : ℕ) (cfg : Settings) (sys : System) (args : Arguments) (maxsessions : ℕ) where
  poll-done :
      (w : Waiting) (r : Waited) (tr : Trace) (events : List (Source × ℕ))
      → r ≡ Waited.ready events
      → HasPipe events
      → EachOk (λ n. n.done ≡ true) (poll rounds cfg sys args maxsessions w r tr)
  unfolding poll
  poll-done w r tr events e h =
      rw (e, poll)
        (EachOk-bind IsEnd (λ (n : Loop). n.done ≡ true)
          (serve_events rounds cfg sys args w.sessions maxsessions events w.list tr) _
          (serve_events-IsEnd rounds cfg sys args w.sessions maxsessions events w.list tr h)
          (λ r ended. ended))

  -- A round in which epoll reports the pipe is the last one, whatever else it reports before or behind.
  pub loop_round-done :
      (l : Loop) (events : List (Source × ℕ))
      → round_answer sys maxsessions l ≡ Waited.ready events
      → HasPipe events
      → EachOk (λ n. n.done ≡ true) (loop_round rounds cfg sys args maxsessions l)
  unfolding loop_round
  loop_round-done l events e h = poll-done (prepare sys maxsessions l) _ _ events e h
