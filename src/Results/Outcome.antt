-- ===== src/Results/Outcome.antt =====
-- What the results of the C library and of plugins do to the state of a query (lib/backend.c).
use netresolve.Prelude.{
  ℕ, ℤ, ◌≡◌, refl, Bool, true, false, List, [], ◌∷◌, ◌++◌, ◌==◌, Bool-cases, inl, inr, ◌∙◌,
  if◌then◌else◌,
}
use netresolve.Types.{State}
use netresolve.Types.Af
use netresolve.Query.{Call, Query, Env}
use netresolve.Machine.Entering.{run_calls, set_state}
use netresolve.Machine.Failover.{verdict, ends_resolved, ends_error}
use netresolve.Results.{
  AddrInfo, Status, AddrTuple, addrinfo_call, addrinfo_calls, apply_addrinfo, tuple_calls,
  apply_addrtuple,
}

-- The state that a status stands for.
abbrev pub outcome : Status → State
outcome Status.success = State.resolved
outcome Status.nothing = State.resolved
outcome Status.other = State.error

verdict-addrinfo_call :
    (linklocal : List ℕ → Bool) (ttl : ℤ) (item : AddrInfo) (s : State) (cs : List Call)
    → verdict s (addrinfo_call linklocal ttl item ∷ cs) ≡ verdict s cs
unfolding addrinfo_call
verdict-addrinfo_call linklocal ttl item s cs = elim (Bool-cases (item.family == Af.inet)) [
  | inl e ↦ rw e refl
  | inr e ↦ elim (Bool-cases (item.family == Af.inet6)) [
    | inl f ↦ rw (e, f) refl
    | inr f ↦ rw (e, f) refl
  ]
]

verdict-addrinfo_calls :
    (linklocal : List ℕ → Bool) (ttl : ℤ) (items : List AddrInfo) (s : State) (cs : List Call)
    → verdict s (addrinfo_calls linklocal ttl items ++ cs) ≡ verdict s cs
unfolding addrinfo_calls
verdict-addrinfo_calls linklocal ttl [] s cs = refl
verdict-addrinfo_calls linklocal ttl (i ∷ items) s cs =
    verdict-addrinfo_call linklocal ttl i s (addrinfo_calls linklocal ttl items ++ cs)
    ∙ verdict-addrinfo_calls linklocal ttl items s cs

pub verdict-apply_addrinfo :
    (linklocal : List ℕ → Bool) (status : Status) (items : List AddrInfo) (ttl : ℤ) (s : State)
    → verdict s (apply_addrinfo linklocal status items ttl) ≡ outcome status
unfolding apply_addrinfo
verdict-apply_addrinfo linklocal Status.success items ttl s =
    verdict-addrinfo_calls linklocal ttl items s (Call.finished ∷ [])
verdict-apply_addrinfo linklocal Status.nothing items ttl s = refl
verdict-apply_addrinfo linklocal Status.other items ttl s = refl

verdict-tuple_calls :
    (ttl : ℤ) (items : List AddrTuple) (s : State) (cs : List Call)
    → verdict s (tuple_calls ttl items ++ cs) ≡ verdict s cs
unfolding tuple_calls
verdict-tuple_calls ttl [] s cs = refl
verdict-tuple_calls ttl (i ∷ items) s cs = verdict-tuple_calls ttl items s cs

pub verdict-apply_addrtuple :
    (found : Bool) (items : List AddrTuple) (ttl : ℤ) (s : State)
    → verdict s (apply_addrtuple found items ttl) ≡ (if found then State.resolved else State.error)
unfolding apply_addrtuple
verdict-apply_addrtuple true items ttl s = verdict-tuple_calls ttl items s (Call.finished ∷ [])
verdict-apply_addrtuple false items ttl s = refl

run_addrinfo :
    (env : Env) (linklocal : List ℕ → Bool) (status : Status) (items : List AddrInfo) (ttl : ℤ)
    (q : Query)
    → (run_calls env (apply_addrinfo linklocal status items ttl) q).state ≡ outcome status
unfolding run_calls apply_addrinfo
run_addrinfo env linklocal Status.success items ttl q =
    ends_resolved (set_state env State.waiting_more) env (addrinfo_calls linklocal ttl items) q
run_addrinfo env linklocal Status.nothing items ttl q =
    ends_resolved (set_state env State.waiting_more) env [] q
run_addrinfo env linklocal Status.other items ttl q =
    ends_error (set_state env State.waiting_more) env q

run_addrtuple :
    (env : Env) (found : Bool) (items : List AddrTuple) (ttl : ℤ) (q : Query)
    → (run_calls env (apply_addrtuple found items ttl) q).state
      ≡ (if found then State.resolved else State.error)
unfolding run_calls apply_addrtuple
run_addrtuple env true items ttl q =
    ends_resolved (set_state env State.waiting_more) env (tuple_calls ttl items) q
run_addrtuple env false items ttl q = ends_error (set_state env State.waiting_more) env q

-- Applying a result of getaddrinfo or of a name service plugin from the event loop leaves a query in
-- any state resolved or in error as its status says, whatever it lists, also where the first path that is
-- added makes a waiting query done and another backend is tried.
pub results-outcome :
    (env : Env) (linklocal : List ℕ → Bool) (status : Status) (items : List AddrInfo) (found : Bool)
    (tuples : List AddrTuple) (ttl : ℤ) (q : Query)
    → ((run_calls env (apply_addrinfo linklocal status items ttl) q).state ≡ outcome status)
      × ((run_calls env (apply_addrtuple found tuples ttl) q).state
          ≡ (if found then State.resolved else State.error))
results-outcome env linklocal status items found tuples ttl q =
    (run_addrinfo env linklocal status items ttl q, run_addrtuple env found tuples ttl q)
