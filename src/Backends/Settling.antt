-- ===== src/Backends/Settling.antt =====
-- How the backends of Backends end a query.
use netresolve.Prelude.{
  ℕ, str_eq, ◌≡◌, refl, ◌⊎◌, inl, inr, Bool, true, false, Option, none, some, List, [], ◌∷◌, ◌++◌,
  CString, arith, Bool-cases,
}
use netresolve.Types.{State, Request}
use netresolve.Query.{Call}
use netresolve.Output.{get_nodename}
use netresolve.Parse.{Resolver, Parsed}
use netresolve.Machine.Failover.{verdict}
use netresolve.Hosts.{
  HostsItem, is_item, named_calls, address_calls, answer_calls, forward_calls, hosts_forward,
  hosts_reverse,
}
use netresolve.Backends.{
  any_forward, any_reverse, loopback_forward, loopback_reverse, unix_forward, numerichost_forward,
  numerichost_calls, hostname_forward, Interface, add_addresses, skips_interface, interface_call,
  or_calls, is_named,
}

-- The calls leave a query that is being set up resolved, or in error.
abbrev pub Settles : List Call → Type 0
Settles cs = (verdict State.setup cs ≡ State.resolved) ⊎ (verdict State.setup cs ≡ State.error)

any-Settles : (r : Request) → Settles (any_forward r) × Settles (any_reverse r)
unfolding any_forward any_reverse
any-Settles r = (ground arith, ground arith)

loopback-Settles : (r : Request) → Settles (loopback_forward r) × Settles (loopback_reverse r)
unfolding loopback_forward loopback_reverse
loopback-Settles r = (ground arith, ground arith)

unix-Settles : (r : Request) → Settles (unix_forward r)
unfolding unix_forward
unix-Settles r = ground arith

numerichost_calls-Settles :
    (name : Option CString) (p : Option Parsed) → Settles (numerichost_calls name p)
unfolding numerichost_calls
numerichost_calls-Settles name none = inr refl
numerichost_calls-Settles name (some p) = ground arith

add_addresses-verdict :
    (filter : Bool) (list : List Interface) (cs : List Call)
    → verdict State.setup (add_addresses filter list ++ cs) ≡ verdict State.setup cs
unfolding add_addresses interface_call
add_addresses-verdict filter [] cs = refl
add_addresses-verdict filter (i ∷ is) cs = elim (Bool-cases (skips_interface filter i)) [
  | inl e ↦ rw e (add_addresses-verdict filter is cs)
  | inr e ↦ rw e (add_addresses-verdict filter is cs)
]

or_calls-verdict :
    (ds bs cs : List Call)
    → verdict State.setup (ds ++ cs) ≡ verdict State.setup cs
    → verdict State.setup (bs ++ cs) ≡ verdict State.setup cs
    → verdict State.setup (or_calls ds bs ++ cs) ≡ verdict State.setup cs
or_calls-verdict [] bs cs h k = k
or_calls-verdict (d ∷ ds) bs cs h k = h

hostname-Settles :
    (host : CString) (list : Option (List Interface)) (r : Request)
    → Settles (hostname_forward host list r)
unfolding hostname_forward
hostname-Settles host none r = inr refl
hostname-Settles host (some list) r = elim (Bool-cases (is_named (get_nodename r) host)) [
  | inl e ↦ rw e (
      inl (
        or_calls-verdict (add_addresses true list) (add_addresses false list) _
          (add_addresses-verdict true list _) (add_addresses-verdict false list _)))
  | inr e ↦ rw e (inr refl)
]

-- Calls that leave the state of a query alone.
abbrev IsQuiet : List Call → Type 0
IsQuiet cs = (more : List Call) → verdict State.setup (cs ++ more) ≡ verdict State.setup more

named_calls-IsQuiet : (node : CString) (items : List HostsItem) → IsQuiet (named_calls node items)
unfolding named_calls
named_calls-IsQuiet node [] more = refl
named_calls-IsQuiet node (i ∷ is) more = elim (Bool-cases (str_eq node i.name)) [
  | inl e ↦ rw e (named_calls-IsQuiet node is more)
  | inr e ↦ rw e (named_calls-IsQuiet node is more)
]

address_calls-IsQuiet :
    (family : ℕ) (address : List ℕ) (items : List HostsItem)
    → IsQuiet (address_calls family address items)
unfolding address_calls
address_calls-IsQuiet family address [] more = refl
address_calls-IsQuiet family address (i ∷ is) more = elim (Bool-cases (is_item family address i)) [
  | inl e ↦ rw e (address_calls-IsQuiet family address is more)
  | inr e ↦ rw e (address_calls-IsQuiet family address is more)
]

answer_calls-Settles : (cs : List Call) → IsQuiet cs → Settles (answer_calls cs)
unfolding answer_calls
answer_calls-Settles [] quiet = inr refl
answer_calls-Settles (c ∷ cs) quiet = inl (quiet (Call.set_secure ∷ Call.finished ∷ []))

forward_calls-Settles :
    (node : Option CString) (items : List HostsItem) → Settles (forward_calls node items)
unfolding forward_calls
forward_calls-Settles none items = inr refl
forward_calls-Settles (some node) items =
    answer_calls-Settles (named_calls node items) (named_calls-IsQuiet node items)

-- Whatever the request, the parser of addresses, the name of the host, its interfaces and the list of
-- the hosts file are, each
-- function of these backends leaves its query resolved or in error when it returns, so it is never
-- left to wait for an event that no one sends.
pub backends-Settle :
    (r : Request) (sys : Resolver) (host : CString) (list : Option (List Interface))
    (items : List HostsItem)
    → Settles (any_forward r)
      × Settles (any_reverse r)
      × Settles (loopback_forward r)
      × Settles (loopback_reverse r)
      × Settles (unix_forward r)
      × Settles (numerichost_forward sys r)
      × Settles (hostname_forward host list r)
      × Settles (hosts_forward items r)
      × Settles (hosts_reverse items r)
unfolding numerichost_forward hosts_forward hosts_reverse
backends-Settle r sys host list items = (
  (any-Settles r).0,
  (any-Settles r).1,
  (loopback-Settles r).0,
  (loopback-Settles r).1,
  unix-Settles r,
  numerichost_calls-Settles (get_nodename r) _,
  hostname-Settles host list r,
  forward_calls-Settles (get_nodename r) items,
  answer_calls-Settles (address_calls r.family r.address items)
      (address_calls-IsQuiet r.family r.address items),
)
