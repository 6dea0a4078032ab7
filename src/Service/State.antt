-- ===== src/Service/State.antt =====
-- The process as app/src/main/cpp/tun2http.c sees it: its variables, the threads that run
-- `handle_events`, and what the system answers.
use mobile_injection.Base.{
  ℕ, Bool, true, false, ◌||◌, ◌==◌, ◌<◌, ◌≡◌, Option, some, List, [], ◌∷◌, ℤ,
}
use mobile_injection.Types.{NgSession, Arguments}
use mobile_injection.System.{Trace}

-- A thread has been created and has not come to its loop, or is in the loop of `handle_events`, with
-- the variables that the loop keeps.
pub data Phase : Type 0 where
  created : Phase
  looping : (done : Bool) (last_check maxsessions : ℕ) → Phase

pub record Thread : Type 0 where
  pub id : ℕ
  pub args : Arguments
  pub tun : ℤ
  pub phase : Phase

-- Where the Java thread stands: outside the native code, in the pthread_join of a thread in `jni_stop`,
-- or behind it.
pub data Caller : Type 0 where
  idle clearing : Caller
  joining : ℕ → Caller

-- The calls that tun2http.c makes of the system.
pub data Call : Type 0 where
  made_mutex destroyed_mutex made_pipe : Call
  -- fcntl F_GETFL and F_SETFL, with or without O_NONBLOCK
  read_flags set_blocking set_nonblocking : ℤ → Call
  -- pthread_create, and the write of one byte into the pipe
  created_thread wrote_pipe : Call
  closed_end : ℤ → Call

-- The answers: pthread_kill(t, 0) == 0 for a thread, pthread_create, whether the write into the pipe
-- fails, the two ends of a new pipe, and fcntl F_GETFL. The first two know the threads that run.
pub record Host : Type 0 where
  pub kill : List ℕ → List Call → ℕ → Bool
  pub create : List ℕ → List Call → Option ℕ
  pub write_fails : List Call → Bool
  pub pipe : List Call → Option (ℤ × ℤ)
  pub flags : List Call → ℤ → ℤ

-- `thread_id` is 0 when there is no thread, `pipefds` the two ends of the pipe, `sessions` the list of
-- `ng_session`.
pub record Process : Type 0 where
  pub thread_id : ℕ
  pub pipefds : ℤ × ℤ
  pub max_tun_msg : ℕ
  pub caller : Caller
  pub threads : List Thread
  pub sessions : List NgSession
  pub trace : Trace
  pub calls : List Call

abbrev pub ids : List Thread → List ℕ
ids [] = []
ids (t ∷ rest) = t.id ∷ ids rest

abbrev pub contains : ℕ → List ℕ → Bool
contains t [] = false
contains t (u ∷ rest) = t == u || contains t rest

-- What POSIX says of pthread_kill and pthread_create: a thread that runs is found, and the identifier
-- of a new one is not 0.
pub record TellsThreads (host : Host) : Type 0 where
  pub finds :
      (threads : List ℕ) (calls : List Call) (t : ℕ)
      → contains t threads ≡ true
      → host.kill threads calls t ≡ true
  pub names :
      (threads : List ℕ) (calls : List Call) (t : ℕ) → host.create threads calls ≡ some t → 0 < t
