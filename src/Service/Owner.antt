-- ===== src/Service/Owner.antt =====
-- Who owns the list of sessions in the process of app/src/main/cpp/tun2http.c: one thread at most, and
-- not the thread while `jni_stop` clears it.
use mathlib.Core.Path.{subst}
use mobile_injection.Base.{
  ℕ, ◌<◌, ◌≡◌, refl, sym, ◌∙◌, ap, arith, Bool, true, false, inl, inr, List, [], ◌∷◌, ◌++◌,
  if◌then◌else◌,
}
use mobile_injection.Base.Run.{ok, EachOk, EachOk-ok, EachOk->>=}
use mobile_injection.Session.Loop.{Loop, max_sessions}
use mobile_injection.Service.State.{
  Phase, Thread, Caller, Call, Host, Process, TellsThreads, ids, contains,
}
use mobile_injection.Service.Calls.{stop_clear, jni_done}
use mobile_injection.Service.Turn.{Env, one_round, after_round, turn}
use mobile_injection.Service.Steps.{Step, Reaches}
use mobile_injection.Service.Owned.{
  IsAlone, IsOwned, empty-IsOwned, init-IsOwned, idle-IsOwned, start-IsOwned, stop-IsOwned,
}

-- A list that is one element long has no more around that element.
alone-between :
    (front : List Thread) (t u : Thread) (back : List Thread)
    → front ++ (t ∷ back) ≡ u ∷ []
    → (front ≡ []) × ((back ≡ []) × (t ≡ u))
alone-between [] t u back e = (refl, (cc, cc))
alone-between (x ∷ front) t u back e = absurd (longer front e)
  where
    longer : (front : List Thread) → x ∷ (front ++ (t ∷ back)) ≡ u ∷ [] → ⊥
    longer [] h = cc
    longer (y ∷ ys) h = cc

not_empty : (front : List Thread) (t : Thread) (back : List Thread) → front ++ (t ∷ back) ≡ [] → ⊥
not_empty [] t back h = cc
not_empty (x ∷ front) t back h = cc

IsOwned-if : (b : Bool) (p q : Process) → IsOwned p → IsOwned q → IsOwned (if b then p else q)
IsOwned-if true p q h k = h
IsOwned-if false p q h k = k

module _ (front : List Thread) (t : Thread) (back : List Thread) (p : Process) where
  -- The thread that takes its turn is the only one.
  record IsSole : Type 0 where
    none_before : front ≡ []
    none_behind : back ≡ []
    named : t.id ≡ p.thread_id
    not_zero : 0 < p.thread_id

  turn-IsSole : p.threads ≡ front ++ (t ∷ back) → IsOwned p → IsSole
  turn-IsSole e o = elim o.alone [
    | inl none_runs ↦ absurd (not_empty front t back (sym e ∙ none_runs))
    | inr (u, (one, (same, named))) ↦
        let (before, (behind, is_u)) = alone-between front t u back (sym e ∙ one) in
        record {
          none_before = before;
          none_behind = behind;
          named = ap (λ x. x.id) is_u ∙ same;
          not_zero = named;
        }
  ]

  -- It goes on under its identifier, or it leaves.
  goes_on-IsOwned :
      (q : Process) (t' : Thread)
      → IsSole
      → t'.id ≡ t.id
      → q.threads ≡ front ++ (t' ∷ back)
      → q.thread_id ≡ p.thread_id
      → q.caller ≡ p.caller
      → p.threads ≡ front ++ (t ∷ back)
      → IsOwned p
      → IsOwned q
  goes_on-IsOwned q t' sole id_kept threads kept caller e o = record {
    alone = inr (
      t',
      (
        threads ∙ rw (sole.none_before, sole.none_behind) refl,
        (id_kept ∙ sole.named ∙ sym kept, subst (λ (n : ℕ). 0 < n) (sym kept) sole.not_zero),
      ),
    );
    cleared = λ c. absurd (not_empty front t back (sym e ∙ o.cleared (sym caller ∙ c)));
    joined = λ s c. elim (o.joined s (sym caller ∙ c)) [
      | inl none_runs ↦ absurd (not_empty front t back (sym e ∙ none_runs))
      | inr same ↦ inr (kept ∙ same)
    ];
  }

  left-IsOwned : (q : Process) → IsSole → q.threads ≡ front ++ back → IsOwned q
  left-IsOwned q sole e = empty-IsOwned q (e ∙ rw (sole.none_before, sole.none_behind) refl)

  pub turn-IsOwned :
      (env : Env) (phase : Phase)
      → p.threads ≡ front ++ (t ∷ back)
      → IsOwned p
      → EachOk IsOwned (turn env phase front t back p)
  unfolding turn
  turn-IsOwned env Phase.created e o =
      let phase = Phase.looping env.failed 0 (max_sessions env.descriptors) in
      IsOwned-if env.attaches _ _
        (goes_on-IsOwned _ (record t { phase = phase }) (turn-IsSole e o) refl refl refl refl e o)
        (left-IsOwned _ (turn-IsSole e o) refl)
  turn-IsOwned env (Phase.looping true last_check maxsessions) e o =
      left-IsOwned _ (turn-IsSole e o) refl
  turn-IsOwned env (Phase.looping false last_check maxsessions) e o =
      EachOk->>= IsOwned (one_round env t last_check maxsessions p)
        (λ n. ok (after_round front t back maxsessions p n))
        (λ (n : Loop).
          goes_on-IsOwned (after_round front t back maxsessions p n)
            (record t { phase = Phase.looping n.done n.last_check maxsessions }) (turn-IsSole e o)
            refl refl refl refl e o)

-- When the thread that is waited for has left, none runs.
pub joined_empty :
    (t : ℕ) (p : Process)
    → p.caller ≡ Caller.joining t
    → contains t (ids p.threads) ≡ false
    → IsOwned p
    → p.threads ≡ []
joined_empty t p e gone o = elim (o.joined t e) [
  | inl none_runs ↦ none_runs
  | inr waited ↦ elim o.alone [
    | inl none_runs ↦ none_runs
    | inr (u, (one, (same, named))) ↦
        let away : contains t (u.id ∷ []) ≡ false =
          subst (λ ts. contains t (ids ts) ≡ false) one gone in
        absurd (ground (arith, same, waited, away))
  ]
]

module _ (host : Host) (tells : TellsThreads host)
    (writes : (calls : List Call) → host.write_fails calls ≡ false) where
  Step-IsOwned : {p q : Process} → Step host p q → IsOwned p → IsOwned q
  unfolding stop_clear jni_done
  Step-IsOwned {p = p} (Step.init e is_q) o = subst IsOwned (sym is_q) (init-IsOwned host p e o)
  Step-IsOwned (Step.start tun fwd53 proxy_ip proxy_port e returns) o =
      EachOk-ok IsOwned _ _ (start-IsOwned host tells tun fwd53 proxy_ip proxy_port _ e o) returns
  Step-IsOwned (Step.stop e is_q) o =
      subst IsOwned (sym is_q) (stop-IsOwned host tells writes _ e o)
  Step-IsOwned (Step.join t e gone is_q) o =
      subst IsOwned (sym is_q) (empty-IsOwned _ (joined_empty t _ e gone o))
  Step-IsOwned (Step.clear e is_q) o = subst IsOwned (sym is_q) (empty-IsOwned _ (o.cleared e))
  Step-IsOwned {p = p} (Step.finish e is_q) o =
      subst IsOwned (sym is_q) (idle-IsOwned (jni_done p) e o.alone)
  Step-IsOwned (Step.thread env front t back e returns) o =
      EachOk-ok IsOwned _ _ (turn-IsOwned front t back _ env t.phase e o) returns

  Reaches-IsOwned : {p q : Process} → Reaches host p q → IsOwned p → IsOwned q
  Reaches-IsOwned Reaches.here o = o
  Reaches-IsOwned (Reaches.step before last) o = Step-IsOwned last (Reaches-IsOwned before o)

  -- If Java makes its calls one after the other and no write into the pipe fails: whatever the calls are and
  -- however the threads take their turns, from a process without a thread at most one thread runs at any
  -- time, it is the one of `thread_id`, and none runs when `jni_stop` clears the list of sessions.
  pub Reaches-IsAlone :
      {p q : Process}
      → p.threads ≡ []
      → Reaches host p q
      → IsAlone q.threads q.thread_id × (q.caller ≡ Caller.clearing → q.threads ≡ [])
  Reaches-IsAlone none_runs reached =
      let o = Reaches-IsOwned reached (empty-IsOwned _ none_runs) in (o.alone, o.cleared)
