-- ===== src/Session/Loop.antt =====
-- `handle_events` of app/src/main/cpp/session.c.
use mobile_injection.Base.{
  ℕ, zero, suc, ◌+◌, ◌*◌, ◌/◌, Bool, true, false, ◌||◌, List, ◌∷◌, ℤ, pos, ◌*ℤ◌, ltb, if◌then◌else◌,
}
use mobile_injection.Base.Run.{◌>>=◌, Run, ok, out_of_fuel}
use mobile_injection.Types.{NgSession, Arguments}
use mobile_injection.System.{System, Trace, Event, Waited}
use mobile_injection.Ip.Handle.{Settings}
use mobile_injection.Session.Count.{count_sessions}
use mobile_injection.Session.Check.{check_sessions}
use mobile_injection.Session.Events.{serve_events}
use mobile_injection.Session.Allowed.{check_allowed}

-- "Get max sessions": 40 percent of the limit on descriptors, and at most 1000.
unfoldable pub max_sessions : (descriptors : ℕ) → ℕ
max_sessions descriptors = let n = descriptors * 40 / 100 in if ltb 1000 n then 1000 else n

-- The variables of the loop; `done` says that the loop is left.
pub record Loop : Type 0 where
  pub done : Bool
  pub last_check : ℕ
  pub list : List NgSession
  pub trace : Trace

-- What is known when epoll_wait is called.
pub record Waiting : Type 0 where
  pub sessions : ℕ
  pub recheck : Bool
  pub timeout : ℤ
  pub last_check : ℕ
  pub list : List NgSession
  pub trace : Trace

-- The counting and, more than 100 milliseconds after the last time, the check of the sessions.
unfoldable pub prepare : System → (maxsessions : ℕ) → Loop → Waiting
prepare sys maxsessions l =
    let c = count_sessions sys l.list l.trace in
    let ms = sys.ms c.trace in
    let tr1 = Event.asked_ms ∷ c.trace in
    let now = sys.time tr1 in
    let r =
      check_sessions sys c.sessions maxsessions now (pos 3600) c.list (Event.asked_time ∷ tr1) in
    if ltb (l.last_check + 100) ms
    then record {
      sessions = c.sessions;
      recheck = c.recheck;
      timeout = r.timeout;
      last_check = ms;
      list = r.list;
      trace = r.trace;
    }
    else record {
      sessions = c.sessions;
      recheck = true;
      timeout = pos 3600;
      last_check = l.last_check;
      list = c.list;
      trace = tr1;
    }

-- "Poll", and what is done with the answer.
unfoldable pub poll :
    (rounds : ℕ)
    → Settings
    → System
    → Arguments
    → (maxsessions : ℕ) → Waiting
    → Waited
    → Trace
    → Run Loop
poll rounds cfg sys args maxsessions w (Waited.ready events) tr = do
  r ← serve_events rounds cfg sys args w.sessions maxsessions events w.list tr
  ok (record {
    done = r.stopping || r.error;
    last_check = w.last_check;
    list = r.list;
    trace = r.trace;
  })
poll rounds cfg sys args maxsessions w Waited.wait_again tr =
    ok (record { done = false; last_check = w.last_check; list = w.list; trace = tr })
poll rounds cfg sys args maxsessions w Waited.wait_failed tr =
    ok (record { done = true; last_check = w.last_check; list = w.list; trace = tr })

-- One round of the loop.
unfoldable pub loop_round :
    (rounds : ℕ) → Settings → System → Arguments → (maxsessions : ℕ) → Loop → Run Loop
unfolding prepare poll
loop_round rounds cfg sys args maxsessions l =
    let w = prepare sys maxsessions l in
    let timeout : ℤ = if w.recheck then pos 100 else w.timeout *ℤ pos 1000 in
    poll rounds cfg sys args maxsessions w (sys.wait w.trace timeout)
      (Event.waited timeout ∷ w.trace)

-- `while (!stopping)`, for at most so many rounds.
unfoldable pub loop_rounds :
    (fuel rounds : ℕ) → Settings → System → Arguments → (maxsessions : ℕ) → Loop → Run Loop
unfolding loop_round
loop_rounds zero rounds cfg sys args maxsessions l = out_of_fuel
loop_rounds (suc fuel) rounds cfg sys args maxsessions l =
    let next = (do
      l1 ← loop_round rounds cfg sys args maxsessions l
      loop_rounds fuel rounds cfg sys args maxsessions l1) in
    if l.done then ok l else next

-- The sessions that an earlier thread has left are ended first. `failed` says that epoll_create or
-- epoll_ctl has reported an error.
unfoldable pub handle_events :
    (fuel rounds : ℕ)
    → Settings
    → System
    → Arguments
    → (descriptors : ℕ) (failed : Bool) → List NgSession
    → Trace
    → Run Loop
unfolding max_sessions check_allowed loop_rounds
handle_events fuel rounds cfg sys args descriptors failed list tr =
    let (list1, tr1) = check_allowed sys list tr in
    loop_rounds fuel rounds cfg sys args (max_sessions descriptors)
      (record { done = failed; last_check = 0; list = list1; trace = tr1 })
