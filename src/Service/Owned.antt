-- ===== src/Service/Owned.antt =====
-- What it is for the threads of the process of app/src/main/cpp/tun2http.c to be owned, and the calls of
-- Java one by one.
use mathlib.Core.Path.{subst}
use mobile_injection.Base.{
  ℕ, ◌<◌, ◌≡◌, refl, sym, ap, arith, Bool, true, false, ltb, Option-cases, Bool-cases, ◌⊎◌, inl,
  inr, List, [], ◌∷◌, ℤ, length, if◌then◌else◌,
}
use mobile_injection.Base.Run.{Run, ok, fault, EachOk, EachOk-cases}
use mobile_injection.Types.{Arguments}
use mobile_injection.Service.State.{
  Phase, Thread, Caller, Call, Host, Process, TellsThreads, ids, contains,
}
use mobile_injection.Service.Calls.{jni_init, is_running, make_blocking, spawn, jni_start, jni_stop}

-- No thread runs, or one does, the one of `thread_id`.
abbrev pub IsAlone : (threads : List Thread) (thread_id : ℕ) → Type 0
IsAlone threads thread_id =
    (threads ≡ []) ⊎ ((t : Thread) × ((threads ≡ t ∷ []) × ((t.id ≡ thread_id) × (0 < thread_id))))

-- While the list is cleared no thread runs, and while a thread is waited for no other does.
pub record IsOwned (p : Process) : Type 0 where
  pub alone : IsAlone p.threads p.thread_id
  pub cleared : p.caller ≡ Caller.clearing → p.threads ≡ []
  pub joined : (t : ℕ) → p.caller ≡ Caller.joining t → (p.threads ≡ []) ⊎ (p.thread_id ≡ t)

pub empty-IsOwned : (p : Process) → p.threads ≡ [] → IsOwned p
empty-IsOwned p e = record { alone = inl e; cleared = λ c. e; joined = λ t c. inl e }

-- Outside the native code the threads are all that counts.
pub idle-IsOwned :
    (p : Process) → p.caller ≡ Caller.idle → IsAlone p.threads p.thread_id → IsOwned p
idle-IsOwned p e a = record { alone = a; cleared = λ c. cc; joined = λ t c. cc }

pub init-IsOwned :
    (host : Host) (p : Process) → p.caller ≡ Caller.idle → IsOwned p → IsOwned (jni_init host p)
unfolding jni_init
init-IsOwned host p e o = elim (Option-cases (host.pipe (Call.made_mutex ∷ p.calls))) [
  | inl failed ↦ rw (failed, jni_init) (idle-IsOwned _ e o.alone)
  | inr (ends, made) ↦ rw (made, jni_init) (idle-IsOwned _ e o.alone)
]

module _ (host : Host) (tells : TellsThreads host) where
  -- A process whose `thread_id` is not that of a thread that runs has none.
  not_running-IsAlone :
      (p : Process) → IsAlone p.threads p.thread_id → is_running host p ≡ false → p.threads ≡ []
  unfolding is_running
  not_running-IsAlone p (inl e) h = e
  not_running-IsAlone p (inr (t, (e, (same, named)))) h =
      let known : contains p.thread_id (ids p.threads) ≡ true =
        subst (λ ts. contains p.thread_id (ids ts) ≡ true) (sym e) (ground (arith, same)) in
      let found = tells.finds (ids p.threads) p.calls p.thread_id known in
      absurd (ground (arith, found))

  spawn-IsOwned :
      (tun : ℤ) (args : Arguments) (p : Process)
      → p.caller ≡ Caller.idle
      → p.threads ≡ []
      → IsOwned (spawn host tun args p)
  unfolding spawn
  spawn-IsOwned tun args p e none_runs = elim (Option-cases (host.create (ids p.threads) p.calls)) [
    | inl failed ↦ rw (failed, spawn) (empty-IsOwned _ none_runs)
    | inr (t, made) ↦
        let named = tells.names (ids p.threads) p.calls t made in
        let th : Thread = record { id = t; args = args; tun = tun; phase = Phase.created } in
        let one : th ∷ p.threads ≡ th ∷ [] = ap (λ ts. th ∷ ts) none_runs in
        rw (made, spawn) (idle-IsOwned _ e (inr (th, (one, (refl, named)))))
  ]

  pub start-IsOwned :
      (tun : ℤ) (fwd53 : Bool) (proxy_ip : List ℕ) (proxy_port : ℕ) (p : Process)
      → p.caller ≡ Caller.idle
      → IsOwned p
      → EachOk IsOwned (jni_start host tun fwd53 proxy_ip proxy_port p)
  unfolding jni_start
  start-IsOwned tun fwd53 proxy_ip proxy_port p e o =
      let p1 : Process = record p { max_tun_msg = 0; calls = make_blocking host tun p.calls } in
      let args : Arguments = record {
        fwd53 = fwd53;
        proxy_ip = proxy_ip;
        proxy_port = proxy_port;
      } in
      let make : Run Process =
        if ltb (length proxy_ip) 128 then ok (spawn host tun args p1) else fault in
      EachOk-cases IsOwned (is_running host p1) (ok p1) make (λ runs. idle-IsOwned p1 e o.alone)
        (λ stopped.
          EachOk-cases IsOwned (ltb (length proxy_ip) 128) (ok (spawn host tun args p1)) fault
            (λ fits. spawn-IsOwned tun args p1 e (not_running-IsAlone p1 o.alone stopped))
            (λ long. tt))

  pub stop-IsOwned :
      ((calls : List Call) → host.write_fails calls ≡ false)
      → (p : Process) → p.caller ≡ Caller.idle
      → IsOwned p
      → IsOwned (jni_stop host p)
  unfolding jni_stop
  stop-IsOwned writes p e o = elim (Bool-cases (is_running host p)) [
    | inl runs ↦
        rw (runs, writes p.calls)
          (record { alone = o.alone; cleared = λ c. cc; joined = λ t c. inr (cc) })
    | inr stopped ↦ rw stopped o
  ]
