-- ===== src/Service/Turn.antt =====
-- What the thread that runs `handle_events` (app/src/main/cpp/session.c) does to the process in one
-- turn: it comes to its loop, takes one round, or leaves.
use mobile_injection.Base.{ℕ, Bool, false, List, ◌∷◌, ◌++◌, if◌then◌else◌}
use mobile_injection.Base.Run.{◌>>=◌, Run, ok}
use mobile_injection.System.{System}
use mobile_injection.Ip.Handle.{Settings}
use mobile_injection.Session.Allowed.{check_allowed}
use mobile_injection.Session.Loop.{Loop, max_sessions, loop_round}
use mobile_injection.Service.State.{Phase, Thread, Process}

-- What a turn learns: the rounds of the inner loops, the settings and the system, whether
-- AttachCurrentThread succeeds, the soft limit on descriptors, and whether epoll_create or epoll_ctl
-- has failed.
pub record Env : Type 0 where
  pub rounds : ℕ
  pub settings : Settings
  pub sys : System
  pub attaches : Bool
  pub descriptors : ℕ
  pub failed : Bool

-- A thread that cannot be attached to Java returns at once, and `thread_id` is kept.
unfoldable pub enter_loop :
    Env → (front : List Thread) → Thread → (back : List Thread) → Process → Process
enter_loop env front t back p =
    let (list, tr) = check_allowed env.sys p.sessions p.trace in
    let phase = Phase.looping env.failed 0 (max_sessions env.descriptors) in
    if env.attaches
    then record p {
      threads = front ++ (record t { phase = phase } ∷ back);
      sessions = list;
      trace = tr;
    }
    else record p { threads = front ++ back }

-- The loop has been left: thread_id = 0, and the thread returns.
unfoldable pub leave_loop : (front back : List Thread) → Process → Process
leave_loop front back p = record p { thread_id = 0; threads = front ++ back }

-- What a round leaves.
abbrev pub after_round :
    (front : List Thread)
    → Thread
    → (back : List Thread) (maxsessions : ℕ) → Process
    → Loop
    → Process
after_round front t back maxsessions p n = record p {
  threads = front ++ (record t { phase = Phase.looping n.done n.last_check maxsessions } ∷ back);
  sessions = n.list;
  trace = n.trace;
}

-- One round, if the loop is not left.
abbrev pub one_round : Env → Thread → (last_check maxsessions : ℕ) → Process → Run Loop
one_round env t last_check maxsessions p =
    loop_round env.rounds (record env.settings { tun = t.tun }) env.sys t.args maxsessions
      (record { done = false; last_check = last_check; list = p.sessions; trace = p.trace })

unfoldable pub turn :
    Env → Phase → (front : List Thread) → Thread → (back : List Thread) → Process → Run Process
unfolding enter_loop leave_loop
turn env Phase.created front t back p = ok (enter_loop env front t back p)
turn env (Phase.looping done last_check maxsessions) front t back p =
    let next = (do
      n ← one_round env t last_check maxsessions p
      ok (after_round front t back maxsessions p n)) in
    if done then ok (leave_loop front back p) else next
