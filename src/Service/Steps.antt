-- ===== src/Service/Steps.antt =====
-- The steps of the process: Java makes its calls one after the other, the next when the last has
-- returned, `jni_stop` waits for the thread, and a thread takes its turn at any time.
use mobile_injection.Base.{ℕ, Bool, false, ◌≡◌, ◌≢◌, List, ◌∷◌, ◌++◌, ℤ}
use mobile_injection.Base.Run.{ok}
use mobile_injection.Service.State.{Thread, Caller, Host, Process, ids, contains}
use mobile_injection.Service.Calls.{jni_init, jni_start, jni_stop, stop_clear, jni_done}
use mobile_injection.Service.Turn.{Env, turn}

-- Any call may come when no other has been begun, beside a thread that runs too. pthread_join returns when
-- the thread does not run any more.
pub data Step (host : Host) (p q : Process) : Type 0 where
  init : p.caller ≡ Caller.idle → q ≡ jni_init host p → Step host p q
  start :
      (tun : ℤ) (fwd53 : Bool) (proxy_ip : List ℕ) (proxy_port : ℕ)
      → p.caller ≡ Caller.idle
      → jni_start host tun fwd53 proxy_ip proxy_port p ≡ ok q
      → Step host p q
  stop : p.caller ≡ Caller.idle → q ≡ jni_stop host p → Step host p q
  join :
      (t : ℕ)
      → p.caller ≡ Caller.joining t
      → contains t (ids p.threads) ≡ false
      → q ≡ record p { caller = Caller.clearing }
      → Step host p q
  clear : p.caller ≡ Caller.clearing → q ≡ stop_clear p → Step host p q
  finish : p.caller ≡ Caller.idle → q ≡ jni_done p → Step host p q
  thread :
      (env : Env) (front : List Thread) (t : Thread) (back : List Thread)
      → p.threads ≡ front ++ (t ∷ back)
      → turn env t.phase front t back p ≡ ok q
      → Step host p q

pub data Reaches (host : Host) (p : Process) : Process → Type 0 where
  here : Reaches host p p
  step : {q r : Process} → Reaches host p q → Step host q r → Reaches host p r

-- The steps until the call that has been begun returns to Java.
pub data Awaits (host : Host) (p : Process) : Process → Type 0 where
  begun : Awaits host p p
  goes_on :
      {q r : Process} → Awaits host p q → q.caller ≢ Caller.idle → Step host q r → Awaits host p r
