-- ===== src/Machine/Failover/Started.antt =====
-- The states in which starting a query may leave it (lib/query.c).
use netresolve.Prelude.{
  ◌≡◌, ◌≢◌, refl, ◌⊎◌, inl, inr, false, some, List, [], ◌∷◌, arith, Option-cases,
}
use netresolve.Types.{State, Request}
use netresolve.Query.{Call, Backend, Query, Env}
use netresolve.Machine.{same_state}
use netresolve.Machine.Entering.{set_state}
use netresolve.Machine.Failover.{verdict}
use netresolve.Machine.Failover.Chain.{set_state-chosen}
use netresolve.Machine.Failover.Search.{defaulted, settle, chosen}

verdict_setup :
    (cs : List Call) (s : State)
    → (s ≡ State.setup) ⊎ (s ≡ State.resolved) ⊎ (s ≡ State.error)
    → (verdict s cs ≡ State.setup) ⊎ (verdict s cs ≡ State.resolved) ⊎ (verdict s cs ≡ State.error)
verdict_setup [] s h = h
verdict_setup (Call.finished ∷ cs) s h = verdict_setup cs State.resolved (inr (inl refl))
verdict_setup (Call.failed ∷ cs) s h = verdict_setup cs State.error (inr (inr refl))
verdict_setup (_ ∷ cs) s h = verdict_setup cs s h

-- The states in which a query may rest when it has been started.
abbrev pub HasStarted : State → Type 0
HasStarted s = (s ≡ State.waiting) ⊎ (s ≡ State.resolved) ⊎ (s ≡ State.failed)

settle-HasStarted :
    (r : Request) (v s : State)
    → (v ≡ State.setup) ⊎ (v ≡ State.resolved) ⊎ (v ≡ State.error)
    → settle r v ≡ some s
    → HasStarted s
settle-HasStarted r v s h e = ground arith

chosen-HasStarted : (env : Env) (r : Request) (bs : List Backend) → HasStarted (chosen env r bs).0
chosen-HasStarted env r [] = inr (inr refl)
chosen-HasStarted env r (b ∷ bs) = elim (Option-cases (env.setup b r.type)) [
  | inl e ↦ rw (e, chosen) (chosen-HasStarted env r bs)
  | inr (f, e) ↦ elim (Option-cases (settle r (verdict State.setup (f r)))) [
    | inl n ↦ rw (e, chosen, n) (chosen-HasStarted env r bs)
    | inr (s, n) ↦
        rw (e, chosen, n) (settle-HasStarted r _ s (verdict_setup (f r) State.setup (inl refl)) n)
  ]
]

-- Whatever the backends do, a query that has been started waits, is resolved, or has failed; it is
-- never left in setup or in error.
pub set_state-HasStarted :
    (env : Env) (q : Query)
    → same_state State.setup q.state ≡ false
    → q.backend ≢ []
    → HasStarted (set_state env State.setup q).state
set_state-HasStarted env q new some_left =
    rw (set_state-chosen env q new some_left).state
      (chosen-HasStarted env (defaulted q.request) q.backend)
