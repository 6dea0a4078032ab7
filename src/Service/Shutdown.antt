-- ===== src/Service/Shutdown.antt =====
-- What `jni_stop` (app/src/main/cpp/tun2http.c) leaves when the thread ends, and when the write into the
-- pipe fails.
use mathlib.Core.Path.{subst}
use mobile_injection.Base.{
  ℕ, ◌<◌, inr, ◌≢◌, ◌≡◌, refl, sym, ◌∙◌, ap, Bool, true, false, List, [], ◌∷◌, All,
}
use mobile_injection.Base.Run.{◌>>=◌, ok, EachOk-ok}
use mobile_injection.System.{Source, Waited}
use mobile_injection.Session.Allowed.Ends.{HasClosed, clear-closes}
use mobile_injection.Session.Loop.{Loop}
use mobile_injection.Session.Stop.{HasPipe, round_answer, loop_round-done}
use mobile_injection.Service.State.{Phase, Thread, Caller, Call, Host, Process}
use mobile_injection.Service.Calls.{is_running, jni_stop, stop_clear}
use mobile_injection.Service.Turn.{Env, one_round, after_round, leave_loop, turn}
use mobile_injection.Service.Steps.{Step, Reaches, Awaits}
use mobile_injection.Service.Wait.{returned_behind}

-- `jni_stop` has written the byte and waits.
waits :
    (host : Host) (p : Process)
    → is_running host p ≡ true
    → host.write_fails p.calls ≡ false
    → jni_stop host p
      ≡ record p { calls = Call.wrote_pipe ∷ p.calls; caller = Caller.joining p.thread_id }
unfolding jni_stop
waits host p runs written = rw (runs, written) refl

-- `jni_stop` has not written the byte and does not wait.
waits_not :
    (host : Host) (p : Process)
    → is_running host p ≡ true
    → host.write_fails p.calls ≡ true
    → jni_stop host p ≡ record p { calls = Call.wrote_pipe ∷ p.calls; caller = Caller.clearing }
unfolding jni_stop
waits_not host p runs failed = rw (runs, failed) refl

-- The turns of the only thread: a round, and the end.
round_turn :
    (env : Env) (t : Thread) (last_check maxsessions : ℕ) (p : Process) (n : Loop)
    → t.phase ≡ Phase.looping false last_check maxsessions
    → one_round env t last_check maxsessions p ≡ ok n
    → turn env t.phase [] t [] p ≡ ok (after_round [] t [] maxsessions p n)
unfolding turn
round_turn env t last_check maxsessions p n phase e =
    ap (λ (f : Phase). turn env f [] t [] p) phase
    ∙ ap (λ r. r >>= (λ (m : Loop). ok (after_round [] t [] maxsessions p m))) e

end_turn :
    (env : Env) (t : Thread) (done : Bool) (last_check maxsessions : ℕ) (p : Process)
    → done ≡ true
    → turn env (Phase.looping done last_check maxsessions) [] t [] p ≡ ok (leave_loop [] [] p)
unfolding turn
end_turn env t done last_check maxsessions p e = rw e refl

-- If the write of `jni_stop` into the pipe fails, the list of sessions can be cleared, and their sockets
-- closed, while its thread still runs.
pub jni_stop-clears_early :
    (host : Host) (p : Process)
    → p.caller ≡ Caller.idle
    → is_running host p ≡ true
    → host.write_fails p.calls ≡ true
    → (q : Process) × (Reaches host p q
        × ((q.threads ≡ p.threads) × ((q.sessions ≡ []) × All (HasClosed q.trace) p.sessions)))
unfolding stop_clear
jni_stop-clears_early host p e runs failed =
    let p1 : Process = record p { calls = Call.wrote_pipe ∷ p.calls; caller = Caller.clearing } in
    let closed = clear-closes p.sessions p.trace in
    (
      stop_clear p1,
      (
        Reaches.step (Reaches.step Reaches.here (Step.stop e (sym (waits_not host p runs failed))))
            (Step.clear refl refl),
        (refl, (closed.0, closed.1)),
      ),
    )

-- The one thread, that of `thread_id`, is in its loop: if the byte is written and its next round, in which
-- epoll reports the pipe, returns, then the loop is left and the call of `jni_stop` can return, with no
-- thread, `thread_id` 0, an empty list, and the socket of every session that the round has left closed.
-- Whatever steps come, the call does not return while a thread runs.
pub jni_stop-stops :
    (host : Host) (env : Env) (p : Process) (t : Thread) (last_check maxsessions : ℕ) (n : Loop)
    (events : List (Source × ℕ))
    → p.caller ≡ Caller.idle
    → p.threads ≡ t ∷ []
    → t.id ≡ p.thread_id
    → 0 < p.thread_id
    → t.phase ≡ Phase.looping false last_check maxsessions
    → is_running host p ≡ true
    → host.write_fails p.calls ≡ false
    → round_answer env.sys maxsessions
        (record { done = false; last_check = last_check; list = p.sessions; trace = p.trace })
      ≡ Waited.ready events
    → HasPipe events
    → one_round env t last_check maxsessions p ≡ ok n
    → ((q : Process) × (Awaits host (jni_stop host p) q
          × ((q.caller ≡ Caller.idle)
              × ((q.threads ≡ [])
                  × ((q.thread_id ≡ 0) × ((q.sessions ≡ []) × All (HasClosed q.trace) n.list))))))
      × (¬ (
          (q : Process) × (Awaits host (jni_stop host p) q
            × ((q.caller ≡ Caller.idle) × (q.threads ≢ [])))))
unfolding stop_clear leave_loop
jni_stop-stops host env p t last_check maxsessions n events e one own named phase runs written
      answer has round =
    let p1 : Process = record p {
      calls = Call.wrote_pipe ∷ p.calls;
      caller = Caller.joining p.thread_id;
    } in
    let p2 = after_round [] t [] maxsessions p1 n in
    let t2 : Thread = record t { phase = Phase.looping n.done n.last_check maxsessions } in
    let p3 = leave_loop [] [] p2 in
    let p4 : Process = record p3 { caller = Caller.clearing } in
    let done : n.done ≡ true =
      EachOk-ok (λ m. m.done ≡ true) (one_round env t last_check maxsessions p) n
        (loop_round-done env.rounds _ env.sys t.args maxsessions _ events answer has) round in
    let closed = clear-closes n.list n.trace in
    let begins : jni_stop host p ≡ p1 = waits host p runs written in
    (
      (
        stop_clear p4,
        (
          subst (λ p'. Awaits host p' (stop_clear p4)) (sym begins)
              (Awaits.goes_on {q = p4}
                (Awaits.goes_on {q = p3}
                  (Awaits.goes_on {q = p2}
                    (Awaits.goes_on {q = p1} Awaits.begun (λ c. cc)
                      (Step.thread env [] t [] one
                        (round_turn env t last_check maxsessions p1 n phase round)))
                    (λ c. cc)
                    (Step.thread env [] t2 [] refl
                      (end_turn env t2 n.done n.last_check maxsessions p2 done)))
                  (λ c. cc) (Step.join p.thread_id refl refl refl))
                (λ c. cc) (Step.clear refl refl)),
          (refl, (refl, (refl, (closed.0, closed.1)))),
        ),
      ),
      λ (q, (awaits, (returned, thread_left))). thread_left (
          returned_behind host p1 q p.thread_id refl refl (inr (t, (one, (own, named))))
            (subst (λ p'. Awaits host p' q) begins awaits) returned),
    )
