-- ===== src/Nss/Settling.antt =====
-- How a query of the backend nss ends.
use netresolve.Prelude.{
  if_both, ℕ, ℤ, pos, ◌≡◌, refl, ◌∙◌, ◌⊎◌, inl, inr, Bool, true, false, Option, none, some, List,
  [], ◌∷◌, ◌++◌, CString, eq_ℤ, ◌==◌, if◌then◌else◌,
}
use netresolve.Types.{State, Request}
use netresolve.Types.Af
use netresolve.Query.{Call}
use netresolve.Machine.Failover.{verdict, verdict-append}
use netresolve.Output.{get_nodename}
use netresolve.Results.{Status, AddrInfo, apply_addrinfo, apply_addrtuple, apply_hostent}
use netresolve.Results.Outcome.{outcome, verdict-apply_addrinfo, verdict-apply_addrtuple}
use netresolve.Backends.Settling.{Settles}
use netresolve.Nss.{
  Handle, Plugin, HostResult, TupleResult, InfoFunction, TupleFunction, FamilyFunction,
  HostFunction, initialize, combine_statuses, success, get_addrinfo_hints,
}
use netresolve.Nss.Forward.{
  combined_calls, status_of, name_of, ttl_of, no_service, canonical_calls, host_if, family_calls,
  host_calls, tuple_result_calls, host_branch, tuple_branch, name_branch, info_branch, plugin_calls,
  query_forward,
}

-- Calls that leave a query resolved, whatever its state was.
abbrev Resolves : List Call → Type 0
Resolves cs = (s : State) → verdict s cs ≡ State.resolved

finished-Resolves : Resolves (Call.finished ∷ [])
finished-Resolves s = refl

append-Resolves : (cs ds : List Call) → Resolves ds → Resolves (cs ++ ds)
append-Resolves cs ds h s = verdict-append s cs ds ∙ h (verdict s cs)

combined_calls-Settles : (r4 r6 : Option HostResult) → Settles (combined_calls r4 r6)
unfolding combined_calls
combined_calls-Settles r4 r6 =
    let last = Call.finished ∷ [] in
    let behind4 = host_if r4 (ttl_of r6) ++ last in
    let behind6 = host_if r6 (ttl_of r4) ++ behind4 in
    if_both Settles (eq_ℤ (combine_statuses (status_of r4) (status_of r6)) success) _ _
      (inl (
        append-Resolves (canonical_calls (name_of r6) (name_of r4)) behind6
          (append-Resolves (host_if r6 (ttl_of r4)) behind4
            (append-Resolves (host_if r4 (ttl_of r6)) last finished-Resolves))
          State.setup))
      (inr refl)

host_calls-Settles : (r : HostResult) → Settles (host_calls r)
unfolding host_calls
host_calls-Settles r =
    if_both Settles (eq_ℤ r.status success) _ _
      (inl (
        append-Resolves (apply_hostent r.host (no_service (pos 0))) (Call.finished ∷ [])
          finished-Resolves State.setup))
      (inr refl)

host_branch-Settles :
    (f3 f2 : Option FamilyFunction) (f1 : Option HostFunction) (wanted : ℕ) (node : CString)
    → Settles (host_branch f3 f2 f1 wanted node)
unfolding host_branch family_calls
host_branch-Settles (some f) f2 f1 wanted node = combined_calls-Settles _ _
host_branch-Settles none (some f) f1 wanted node = combined_calls-Settles _ _
host_branch-Settles none none (some f) wanted node = host_calls-Settles (f node)
host_branch-Settles none none none wanted node = inr refl

if_state :
    (b : Bool)
    → ((if b then State.resolved else State.error) ≡ State.resolved)
      ⊎ ((if b then State.resolved else State.error) ≡ State.error)
if_state true = inl refl
if_state false = inr refl

outcome_cases :
    (status : Status) → (outcome status ≡ State.resolved) ⊎ (outcome status ≡ State.error)
outcome_cases Status.success = inl refl
outcome_cases Status.nothing = inl refl
outcome_cases Status.other = inr refl

settled_as :
    (cs : List Call) (s : State)
    → verdict State.setup cs ≡ s
    → (s ≡ State.resolved) ⊎ (s ≡ State.error)
    → Settles cs
settled_as cs s e (inl k) = inl (e ∙ k)
settled_as cs s e (inr k) = inr (e ∙ k)

tuple_result-Settles : (r : TupleResult) → Settles (tuple_result_calls r)
unfolding tuple_result_calls
tuple_result-Settles r =
    settled_as (apply_addrtuple (eq_ℤ r.status success) r.items r.ttl) _
      (verdict-apply_addrtuple (eq_ℤ r.status success) r.items r.ttl State.setup)
      (if_state (eq_ℤ r.status success))

tuple_branch-Settles :
    (f : Option TupleFunction) (wanted : ℕ) (node : CString) (rest : List Call)
    → Settles rest
    → Settles (tuple_branch f wanted node rest)
unfolding tuple_branch
tuple_branch-Settles none wanted node rest h = h
tuple_branch-Settles (some f) wanted node rest h =
    if_both Settles (wanted == Af.unspec) (tuple_result_calls (f node)) rest
      (tuple_result-Settles (f node)) h

name_branch-Settles :
    (p : Plugin) (wanted : ℕ) (node : Option CString) → Settles (name_branch p wanted node)
unfolding name_branch
name_branch-Settles p wanted none = inr refl
name_branch-Settles p wanted (some node) =
    tuple_branch-Settles p.gethostbyname4_r wanted node _
      (host_branch-Settles p.gethostbyname3_r p.gethostbyname2_r p.gethostbyname_r wanted node)

pub apply_addrinfo-Settles :
    (linklocal : List ℕ → Bool) (status : Status) (items : List AddrInfo) (ttl : ℤ)
    → Settles (apply_addrinfo linklocal status items ttl)
apply_addrinfo-Settles linklocal status items ttl =
    settled_as (apply_addrinfo linklocal status items ttl) _
      (verdict-apply_addrinfo linklocal status items ttl State.setup) (outcome_cases status)

info_branch-Settles :
    (linklocal : List ℕ → Bool) (r : Request) (f : Option InfoFunction) (rest : List Call)
    → Settles rest
    → Settles (info_branch linklocal r f rest)
unfolding info_branch
info_branch-Settles linklocal r none rest h = h
info_branch-Settles linklocal r (some f) rest h =
    let result = f (get_nodename r) r.servname (get_addrinfo_hints r) in
    apply_addrinfo-Settles linklocal result.status result.items result.ttl

plugin_calls-Settles :
    (linklocal : List ℕ → Bool) (r : Request) (p : Option Plugin)
    → Settles (plugin_calls linklocal r p)
unfolding plugin_calls
plugin_calls-Settles linklocal r none = inr refl
plugin_calls-Settles linklocal r (some p) =
    info_branch-Settles linklocal r p.getaddrinfo _
      (name_branch-Settles p r.family (get_nodename r))

pub query_forward-Settles :
    (dlopen : CString → Option Handle) (linklocal : List ℕ → Bool) (settings : List CString)
    (r : Request)
    → Settles (query_forward dlopen linklocal settings r)
unfolding query_forward
query_forward-Settles dlopen linklocal settings r =
    plugin_calls-Settles linklocal r (initialize dlopen settings)
