-- ===== src/Start.antt =====
-- lib/query.c: the construction of queries and the getters for their results.
mod Reverse
mod Lives
mod Getters
mod Examples
use netresolve.Prelude.{
  ℕ, ℤ, pos, Bool, true, false, not, ◌&&◌, Option, none, some, List, [], ◌∷◌, CString, codes,
  get_elem?, length, ltb, ◌==◌, if◌then◌else◌, is_nonneg, is_some,
}
use netresolve.Types.{
  State, RequestType, Security, Request, AddrPath, Node, PathService, zero_response,
}
use netresolve.Types.Af
use netresolve.Options.{Setting, set_options}
use netresolve.Context.{Context, Variables, set_backend_string}
use netresolve.Query.{zero_query, Query, Backend, Env}
use netresolve.Machine.Entering.{set_state}
use netresolve.Machine.Dispatch.{free_query}

-- the backends of the context, installed if there are none
context_backends : (CString → Bool) → Variables → List Backend → List Backend
context_backends plugins v [] = set_backend_string plugins v.backends
context_backends plugins v (b ∷ bs) = b ∷ bs

blank_query : List Backend → Request → Bool → Query
blank_query backends request callback = record zero_query {
  backend = backends;
  request = request;
  callback = callback;
}

-- `netresolve_query_new`; `none` is the call of `abort` when no backend can be loaded
pub query_new : (CString → Bool) → Variables → Context → RequestType → Bool → Option Query
unfolding context_backends blank_query
query_new plugins v context type callback = elim (context_backends plugins v context.backends) [
  | [] ↦ none
  | b ∷ bs ↦ some (blank_query (b ∷ bs) (record context.request { type = type }) callback)
]

force : ℕ → Request → Request
force family r = if family == Af.unspec then r else record r { family = family }

-- the part of `netresolve_query` behind `netresolve_query_new`: NULL for an unknown option
start_query : Env → Context → List Setting → Query → Option Query
unfolding force
start_query env context settings q =
    let (request, known) = set_options q.request settings in
    if known
    then some
        (set_state env State.setup (record q { request = force context.force_family request }))
    else none

-- `netresolve_query` in non-blocking mode; the outer `none` is the abort, the inner one NULL
unfoldable pub query :
    (CString → Bool)
    → Variables
    → Env
    → Context
    → RequestType
    → List Setting
    → Option (Option Query)
unfolding start_query query_new
query plugins v env context type settings = elim (query_new plugins v context type true) [
  | none ↦ none
  | some q ↦ some (start_query env context settings q)
]

-- `netresolve_query_forward`
pub forward_settings : Option CString → Option CString → List Setting
forward_settings nodename servname = Setting.node_name nodename ∷ Setting.service_name servname ∷ []

-- `netresolve_query_reverse`; `none` is NULL for another family
unfoldable pub reverse_settings : ℕ → List ℕ → ℤ → ℤ → ℤ → Option (List Setting)
reverse_settings family address ifindex protocol port =
    let rest = Setting.ifindex ifindex ∷ Setting.protocol protocol ∷ Setting.port port ∷ [] in
    if family == Af.inet
    then some (Setting.ip4_address address ∷ rest)
    else if family == Af.inet6
    then some (Setting.ip6_address address ∷ rest)
    else none

-- `netresolve_query_dns`
pub dns_settings : Option CString → ℤ → ℤ → List Setting
dns_settings dname cls type =
    Setting.dns_name dname ∷ Setting.dns_class cls ∷ Setting.dns_type type ∷ []

-- `netresolve_query_gethostbyaddr` of lib/compat.c: the settings of its reverse query, or NULL
pub gethostbyaddr_settings : List ℕ → ℤ → ℕ → Option (List Setting)
unfolding reverse_settings
gethostbyaddr_settings address length family =
    if family == Af.inet
    then (elim length [
      | pos n ↦ if n == 4 then reverse_settings family address (pos 0) (pos 0) (pos 0) else none
      | _ ↦ none
    ])
    else none

-- `netresolve_query_get_count`
unfoldable pub get_count : Query → ℕ
get_count q = length q.response.paths

-- `netresolve_query_get_node_info`; `none` is a failed assertion
unfoldable pub get_node_info : Query → ℕ → Option (ℕ × List ℕ × ℤ)
get_node_info q idx = elim (get_elem? q.response.paths idx) [
  | none ↦ none
  | some p ↦ some (p.node.family, p.node.address, p.node.ifindex)
]

-- `netresolve_query_get_service_info`
unfoldable pub get_service_info : Query → ℕ → Option (ℕ × ℕ × ℤ)
get_service_info q idx = elim (get_elem? q.response.paths idx) [
  | none ↦ none
  | some p ↦ some (p.service.socktype, p.service.protocol, p.service.port)
]

-- `netresolve_query_get_aux_info`
unfoldable pub get_aux_info : Query → ℕ → Option (ℤ × ℤ × ℤ)
get_aux_info q idx = elim (get_elem? q.response.paths idx) [
  | none ↦ none
  | some p ↦
      some
        (p.priority, p.weight, if is_nonneg q.request.clamp_ttl then q.request.clamp_ttl else p.ttl)
]

abbrev is_done : State → Bool
is_done State.done = true
is_done _ = false

abbrev is_forward : RequestType → Bool
is_forward RequestType.forward = true
is_forward _ = false

abbrev or_localhost : Option CString → CString
or_localhost none = codes "localhost"
or_localhost (some name) = name

-- `netresolve_query_get_node_name`
unfoldable pub get_node_name : Query → Option CString
get_node_name q =
    if is_some q.response.nodename
    then q.response.nodename
    else if is_done q.state && is_forward q.request.type
    then some (or_localhost q.request.nodename)
    else none

-- `netresolve_query_get_service_name`
unfoldable pub get_service_name : Query → Option CString
get_service_name q = q.response.servname

-- `netresolve_query_get_dns_answer`
unfoldable pub get_dns_answer : Query → Option (List ℕ)
get_dns_answer q = q.response.dns_answer

-- `netresolve_query_get_secure`
unfoldable pub get_secure : Query → Bool
get_secure q = elim q.response.security [ Security.secure ↦ true | Security.insecure ↦ false ]
