-- ===== src/Service/Wait.antt =====
-- `jni_stop` (app/src/main/cpp/tun2http.c) does not return while the thread runs.
use mathlib.Core.Path.{subst}
use mobile_injection.Base.{
  ℕ, ◌≡◌, ◌≢◌, refl, sym, ◌∙◌, Bool, true, false, ◌⊎◌, inl, inr, List, [], if◌then◌else◌,
}
use mobile_injection.Base.Run.{ok, EachOk, EachOk-ok, EachOk->>=}
use mobile_injection.Session.Allowed.Ends.{clear-closes}
use mobile_injection.Session.Loop.{Loop}
use mobile_injection.Service.State.{Phase, Thread, Caller, Host, Process}
use mobile_injection.Service.Calls.{stop_clear}
use mobile_injection.Service.Turn.{Env, one_round, after_round, turn}
use mobile_injection.Service.Steps.{Step, Awaits}
use mobile_injection.Service.Owned.{IsAlone, IsOwned, empty-IsOwned}
use mobile_injection.Service.Owner.{turn-IsOwned, joined_empty}

-- `jni_stop` waits, clears, or has returned behind the thread.
abbrev IsStopping : Process → Type 0
IsStopping p =
    IsOwned p
    × (((t : ℕ) × (p.caller ≡ Caller.joining t))
        ⊎ ((p.caller ≡ Caller.clearing) ⊎ ((p.threads ≡ []) × (p.sessions ≡ []))))

caller-if :
    (b : Bool) (p q : Process) (c : Caller)
    → p.caller ≡ c
    → q.caller ≡ c
    → (if b then p else q).caller ≡ c
caller-if true p q c e f = e
caller-if false p q c e f = f

turn-caller :
    (env : Env) (phase : Phase) (front : List Thread) (t : Thread) (back : List Thread)
    (p : Process)
    → EachOk (λ q. q.caller ≡ p.caller) (turn env phase front t back p)
unfolding turn
turn-caller env Phase.created front t back p = caller-if env.attaches _ _ p.caller refl refl
turn-caller env (Phase.looping true last_check maxsessions) front t back p = refl
turn-caller env (Phase.looping false last_check maxsessions) front t back p =
    EachOk->>= (λ q. q.caller ≡ p.caller) (one_round env t last_check maxsessions p)
      (λ n. ok (after_round front t back maxsessions p n)) (λ (n : Loop). refl)

not_returned :
    (p : Process)
    → p.caller ≢ Caller.idle
    → ((t : ℕ) × (p.caller ≡ Caller.joining t)) ⊎ (p.caller ≡ Caller.clearing)
not_returned p ne = named p.caller refl
  where
    named :
        (c : Caller)
        → p.caller ≡ c
        → ((t : ℕ) × (p.caller ≡ Caller.joining t)) ⊎ (p.caller ≡ Caller.clearing)
    named Caller.idle e = absurd (ne e)
    named Caller.clearing e = inr e
    named (Caller.joining t) e = inl (t, e)

step-IsStopping :
    (host : Host) (p q : Process)
    → Step host p q
    → p.caller ≢ Caller.idle
    → IsOwned p
    → IsStopping q
unfolding stop_clear
step-IsStopping host p q (Step.init e is_q) ne o = absurd (ne e)
step-IsStopping host p q (Step.start tun fwd53 proxy_ip proxy_port e returns) ne o = absurd (ne e)
step-IsStopping host p q (Step.stop e is_q) ne o = absurd (ne e)
step-IsStopping host p q (Step.finish e is_q) ne o = absurd (ne e)
step-IsStopping host p q (Step.join t e gone is_q) ne o =
    subst IsStopping (sym is_q) (empty-IsOwned _ (joined_empty t p e gone o), inr (inl refl))
step-IsStopping host p q (Step.clear e is_q) ne o =
    let none_runs = o.cleared e in
    subst IsStopping (sym is_q)
      (empty-IsOwned _ none_runs, inr (inr (none_runs, (clear-closes p.sessions p.trace).0)))
step-IsStopping host p q (Step.thread env front t back e returns) ne o =
    let kept : q.caller ≡ p.caller =
      EachOk-ok (λ r. r.caller ≡ p.caller) _ q (turn-caller env t.phase front t back p) returns in
    (
      EachOk-ok IsOwned _ q (turn-IsOwned front t back p env t.phase e o) returns,
      elim (not_returned p ne) [
        | inl (u, waits) ↦ inl (u, kept ∙ waits)
        | inr clears ↦ inr (inl (kept ∙ clears))
      ],
    )

pub Awaits-IsStopping :
    {host : Host} {p q : Process} → Awaits host p q → IsStopping p → IsStopping q
Awaits-IsStopping Awaits.begun s = s
Awaits-IsStopping (Awaits.goes_on before ne step) s =
    step-IsStopping _ _ _ step ne (Awaits-IsStopping before s).0

-- A call of `jni_stop` that waits returns behind the thread only.
pub returned_behind :
    (host : Host) (p q : Process) (t : ℕ)
    → p.caller ≡ Caller.joining t
    → p.thread_id ≡ t
    → IsAlone p.threads p.thread_id
    → Awaits host p q
    → q.caller ≡ Caller.idle
    → q.threads ≡ []
returned_behind host p q t waits own alone awaits returned =
    let owned : IsOwned p = record {
      alone = alone;
      cleared = λ c. cc;
      joined = λ u c. inr (own ∙ same t u (sym waits ∙ c));
    } in
    elim (Awaits-IsStopping awaits (owned, inl (t, waits))).1 [
      | inl (u, still) ↦ cc
      | inr (inl clears) ↦ cc
      | inr (inr (none_runs, empty)) ↦ none_runs
    ]
  where
    same : (t u : ℕ) → Caller.joining t ≡ Caller.joining u → t ≡ u
    same t u e = cc
