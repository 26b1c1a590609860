-- ===== src/Machine/Failover/Search.antt =====
-- The specification of the chain of backends: a search for the first that takes the query on.
use netresolve.Prelude.{
  ◌≡◌, Bool, ◌&&◌, Option, none, some, List, [], ◌∷◌, ◌++◌, ◌==◌, if◌then◌else◌, is_nonzero,
}
use netresolve.Types.{State, Request}
use netresolve.Types.Ipproto
use netresolve.Query.{Backend, Query, Env}
use netresolve.Machine.Failover.{verdict}
use netresolve.Machine.Steady.{names}

-- The request as a setup sees it: SRV lookups are for TCP unless a protocol is given.
abbrev pub defaulted : Request → Request
defaulted r = if r.dns_srv_lookup && r.protocol == 0 then record r { protocol = Ipproto.tcp } else r

abbrev pub settle : Request → State → Option State
settle r State.setup = if is_nonzero r.request_timeout then some State.waiting else none
settle r State.error = none
settle r s = some s

-- The state in which a backend leaves a query that it takes on; `none` if it fails at once: it has no
-- function for the request type, it reports a failure last, or it reports nothing and the request
-- timeout is zero.
abbrev pub attempt : Env → Request → Backend → Option State
attempt env r b = elim (env.setup b r.type) [
  | none ↦ none
  | some setup ↦ settle r (verdict State.setup (setup r))
]

-- The state and the backends left after trying some backends in order.
abbrev pub chosen : Env → Request → List Backend → State × List Backend
chosen env r [] = (State.failed, [])
chosen env r (b ∷ bs) = elim (attempt env r b) [ none ↦ chosen env r bs | some s ↦ (s, b ∷ bs) ]

-- The calls of the user's callback: one more if no backend is left.
abbrev pub reported : Bool → List State → List Backend → List State
reported callback before [] = if callback then before ++ State.failed ∷ [] else before
reported callback before (b ∷ bs) = before

-- `q'` is where trying the backends `bs` leaves `q`.
pub record Tried (env : Env) (bs : List Backend) (q q' : Query) : Type 0 where
  pub state : q'.state ≡ (chosen env (defaulted q.request) bs).0
  pub backend : names q'.backend ≡ names (chosen env (defaulted q.request) bs).1
  pub callback : q'.callback ≡ q.callback
  pub notified :
      q'.notified ≡ reported q.callback q.notified (chosen env (defaulted q.request) bs).1
