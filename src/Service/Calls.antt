-- ===== src/Service/Calls.antt =====
-- `jni_init`, `jni_start`, `jni_stop` and `jni_done` of app/src/main/cpp/tun2http.c.
use mobile_injection.Base.{
  ℕ, Bool, not, ◌&&◌, ltb, ◌==◌, none, some, List, ◌∷◌, ℤ, is_neg, length, if◌then◌else◌,
}
use mobile_injection.Base.Run.{Run, ok, fault}
use mobile_injection.Types.{Arguments}
use mobile_injection.Session.Allowed.{init, clear}
use mobile_injection.Service.State.{Phase, Caller, Call, Host, Process, ids}

-- O_NONBLOCK is set on one end of the pipe.
unfoldable pub make_nonblocking : Host → ℤ → List Call → List Call
make_nonblocking host fd calls =
    let calls1 = Call.read_flags fd ∷ calls in
    if is_neg (host.flags calls fd) then calls1 else Call.set_nonblocking fd ∷ calls1

-- The list is forgotten, and the mutex and the pipe are made.
unfoldable pub jni_init : Host → Process → Process
unfolding make_nonblocking init
jni_init host p =
    let calls1 = Call.made_mutex ∷ p.calls in
    let p1 = record p { sessions = init p.sessions; calls = Call.made_pipe ∷ calls1 } in
    elim (host.pipe calls1) [
      | none ↦ p1
      | some (out, into) ↦ record p1 {
        pipefds = (out, into);
        calls = make_nonblocking host into (make_nonblocking host out p1.calls);
      }
    ]

-- thread_id && pthread_kill(thread_id, 0) == 0
unfoldable pub is_running : Host → Process → Bool
is_running host p = not (p.thread_id == 0) && host.kill (ids p.threads) p.calls p.thread_id

-- O_NONBLOCK is cleared on the tun device.
unfoldable pub make_blocking : Host → ℤ → List Call → List Call
make_blocking host tun calls =
    let calls1 = Call.read_flags tun ∷ calls in
    if is_neg (host.flags calls tun) then calls1 else Call.set_blocking tun ∷ calls1

-- "Start native thread". An error of pthread_create leaves `thread_id` as it was.
unfoldable pub spawn : Host → (tun : ℤ) → Arguments → Process → Process
spawn host tun args p = elim (host.create (ids p.threads) p.calls) [
  | none ↦ record p { calls = Call.created_thread ∷ p.calls }
  | some t ↦ record p {
    thread_id = t;
    threads = record { id = t; args = args; tun = tun; phase = Phase.created } ∷ p.threads;
    calls = Call.created_thread ∷ p.calls;
  }
]

-- args->proxyIp has 128 bytes, and strcpy writes the text and its NUL.
unfoldable pub jni_start :
    Host → (tun : ℤ) (fwd53 : Bool) (proxy_ip : List ℕ) (proxy_port : ℕ) → Process → Run Process
unfolding is_running make_blocking spawn
jni_start host tun fwd53 proxy_ip proxy_port p =
    let p1 = record p { max_tun_msg = 0; calls = make_blocking host tun p.calls } in
    let args : Arguments = record { fwd53 = fwd53; proxy_ip = proxy_ip; proxy_port = proxy_port } in
    if is_running host p1
    then ok p1
    else if ltb (length proxy_ip) 128
    then ok (spawn host tun args p1)
    else fault

-- The part up to pthread_join: if the thread runs and the byte is written, the caller waits for the
-- thread, and if the write fails, it does not.
unfoldable pub jni_stop : Host → Process → Process
unfolding is_running
jni_stop host p =
    let p1 = record p { calls = Call.wrote_pipe ∷ p.calls } in
    if is_running host p
    then (if host.write_fails p.calls
        then record p1 { caller = Caller.clearing }
        else record p1 { caller = Caller.joining p.thread_id })
    else p

-- The part behind pthread_join.
unfoldable pub stop_clear : Process → Process
stop_clear p =
    let (list, tr) = clear p.sessions p.trace in
    record p { caller = Caller.idle; sessions = list; trace = tr }

unfoldable pub jni_done : Process → Process
jni_done p =
    let (list, tr) = clear p.sessions p.trace in
    record p {
      sessions = list;
      trace = tr;
      calls =
          Call.closed_end p.pipefds.1
          ∷ Call.closed_end p.pipefds.0
          ∷ Call.destroyed_mutex
          ∷ p.calls;
    }
