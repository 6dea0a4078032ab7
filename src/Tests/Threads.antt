-- ===== src/Tests/Threads.antt =====
-- The process and its threads at concrete values.
use mobile_injection.Base.{
  ℕ, ◌≡◌, ◌≢◌, ◌<◌, refl, arith, true, false, Option, some, List, [], ◌∷◌, pos, negsuc, All,
}
use mobile_injection.Base.Run.{ok}
use mobile_injection.System.{System, Source, Waited}
use mobile_injection.Session.Allowed.Ends.{HasClosed}
use mobile_injection.Session.Events.{serve_events}
use mobile_injection.Session.Loop.{Loop, loop_round}
use mobile_injection.Service.State.{Phase, Thread, Caller, Host, Process, TellsThreads, contains}
use mobile_injection.Service.Calls.{is_running, jni_start, jni_stop}
use mobile_injection.Service.Turn.{Env, one_round}
use mobile_injection.Service.Steps.{Step, Reaches, Awaits}
use mobile_injection.Service.Owned.{IsAlone}
use mobile_injection.Service.Owner.{Reaches-IsAlone}
use mobile_injection.Service.Shutdown.{jni_stop-stops, jni_stop-clears_early}
use mobile_injection.Service.Java.{Java, Answer, protect_sockets, protect_sockets_lem}
use mobile_injection.Tests.Data.{kernel, arguments, settings, mixed}

-- Threads that run are found, the next one has the number 5, and the pipe takes every byte.
abbrev host : Host
host = record {
  kill = λ threads calls t. contains t threads;
  create = λ threads calls. some 5;
  write_fails = λ calls. false;
  pipe = λ calls. some (pos 20, pos 21);
  flags = λ calls fd. pos 2;
}

five_not_zero : (t : ℕ) → ◌≡◌ {A = Option ℕ} (some 5) (some t) → 0 < t
five_not_zero t e = ground arith

host-TellsThreads : TellsThreads host
host-TellsThreads = record {
  finds = λ threads calls t e. e;
  names = λ threads calls t e. five_not_zero t e;
}

abbrev first : Process
first = record {
  thread_id = 0;
  pipefds = (pos 20, pos 21);
  max_tun_msg = 0;
  caller = Caller.idle;
  threads = [];
  sessions = mixed;
  trace = [];
  calls = [];
}

-- The process behind `jni_start`.
abbrev started : Process
unfolding jni_start
started = elim (jni_start host (pos 3) false (49 ∷ []) 3128 first) [ ok p ↦ p | _ ↦ first ]

Reaches-IsAlone_example :
    IsAlone started.threads started.thread_id
    × (started.caller ≡ Caller.clearing → started.threads ≡ [])
unfolding jni_start
Reaches-IsAlone_example =
    Reaches-IsAlone host host-TellsThreads (λ calls. refl) {p = first} refl
      (Reaches.step Reaches.here (Step.start (pos 3) false (49 ∷ []) 3128 refl refl))

-- A kernel in which epoll reports the pipe, and a thread in its loop.
abbrev stopping : System
stopping = record kernel { wait = λ tr timeout. Waited.ready ((Source.pipe, 1) ∷ []) }

abbrev env : Env
env = record {
  rounds = 5;
  settings = settings;
  sys = stopping;
  attaches = true;
  descriptors = 1024;
  failed = false;
}

abbrev worker : Thread
worker = record { id = 5; args = arguments; tun = pos 3; phase = Phase.looping false 0 409 }

abbrev working : Process
working = record first { thread_id = 5; threads = worker ∷ [] }

-- The list and the trace behind the last round.
abbrev last : Loop
unfolding loop_round serve_events
last = elim (one_round env worker 0 409 working) [
  | ok n ↦ n
  | _ ↦ record { done = false; last_check = 0; list = []; trace = [] }
]

jni_stop-stops_example :
    ((q : Process) × (Awaits host (jni_stop host working) q
        × ((q.caller ≡ Caller.idle)
            × ((q.threads ≡ [])
                × ((q.thread_id ≡ 0) × ((q.sessions ≡ []) × All (HasClosed q.trace) last.list))))))
    × (¬ (
        (q : Process) × (Awaits host (jni_stop host working) q
          × ((q.caller ≡ Caller.idle) × (q.threads ≢ [])))))
unfolding loop_round is_running serve_events
jni_stop-stops_example =
    jni_stop-stops host env working worker 0 409 last ((Source.pipe, 1) ∷ []) refl refl refl
      (omega arith) refl refl refl refl tt refl

-- The pipe is full.
abbrev full : Host
full = record host { write_fails = λ calls. true }

jni_stop-clears_early_example :
    (q : Process) × (Reaches full working q
      × ((q.threads ≡ worker ∷ []) × ((q.sessions ≡ []) × All (HasClosed q.trace) mixed)))
unfolding is_running
jni_stop-clears_early_example = jni_stop-clears_early full working refl refl refl

-- Two sockets, of which Java protects the second.
abbrev answers : List Answer
answers =
    record { found = true; throws = true; is_protected = false }
    ∷ record { found = true; throws = false; is_protected = true }
    ∷ []

protect_sockets_example :
    (j : Java) × ((protect_sockets answers (record { refs = 3; pending = false; cached = false })
        ≡ ok (negsuc 0 ∷ pos 0 ∷ [], j))
      × ((j.refs ≡ 4) × (j.pending ≡ false)))
protect_sockets_example =
    protect_sockets_lem answers (record { refs = 3; pending = false; cached = false }) refl refl
