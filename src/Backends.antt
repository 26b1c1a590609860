-- ===== src/Backends.antt =====
-- The backends that answer from the request and the system alone: backends/any.c, loopback.c, unix.c,
-- numerichost.c and hostname.c. A function of a backend is the calls that it makes on a request.
pub mod Settling
mod Examples
use netresolve.Prelude.{
  ℕ, ℤ, pos, Bool, true, false, not, ◌&&◌, ◌||◌, Option, none, some, List, [], ◌∷◌, ◌++◌, CString,
  codes, str_eq, take, ◌==◌, if◌then◌else◌, is_nonneg,
}
use netresolve.Types.{Request}
use netresolve.Types.Af
use netresolve.Query.{Call}
use netresolve.Output.{get_nodename}
use netresolve.Parse.{Resolver, Parsed, parse_address}

abbrev pub inaddr_any : List ℕ
inaddr_any = 0 ∷ 0 ∷ 0 ∷ 0 ∷ []

abbrev pub in6addr_any : List ℕ
in6addr_any = 0 ∷ 0 ∷ 0 ∷ 0 ∷ 0 ∷ 0 ∷ 0 ∷ 0 ∷ 0 ∷ 0 ∷ 0 ∷ 0 ∷ 0 ∷ 0 ∷ 0 ∷ 0 ∷ []

abbrev pub inaddr_loopback : List ℕ
inaddr_loopback = 127 ∷ 0 ∷ 0 ∷ 1 ∷ []

abbrev pub in6addr_loopback : List ℕ
in6addr_loopback = 0 ∷ 0 ∷ 0 ∷ 0 ∷ 0 ∷ 0 ∷ 0 ∷ 0 ∷ 0 ∷ 0 ∷ 0 ∷ 0 ∷ 0 ∷ 0 ∷ 0 ∷ 1 ∷ []

-- `netresolve_backend_add_path` with zeros for the service, the priority, the weight and the TTL
abbrev pub add_node : ℕ → List ℕ → ℤ → Call
add_node family address ifindex =
    Call.add_path family address ifindex 0 0 (pos 0) (pos 0) (pos 0) (pos 0)

-- `is_any` of any.c and loopback.c
pub is_any : ℕ → List ℕ → Bool
is_any family address =
    if family == Af.inet
    then str_eq (take 4 address) inaddr_any
    else if family == Af.inet6
    then str_eq (take 16 address) in6addr_any
    else false

-- `is_loopback` of loopback.c
pub is_loopback : ℕ → List ℕ → Bool
is_loopback family address =
    if family == Af.inet
    then str_eq (take 4 address) inaddr_loopback
    else if family == Af.inet6
    then str_eq (take 16 address) in6addr_loopback
    else false

-- `!node || !*node`
abbrev pub is_empty : Option CString → Bool
is_empty none = true
is_empty (some []) = true
is_empty (some (c ∷ cs)) = false

-- `query_forward` of any.c
pub any_forward : Request → List Call
any_forward r =
    if r.default_loopback
    then Call.failed ∷ []
    else if is_empty (get_nodename r)
    then add_node Af.inet inaddr_any (pos 0)
      ∷ add_node Af.inet6 in6addr_any (pos 0)
      ∷ Call.set_secure
      ∷ Call.finished
      ∷ []
    else Call.failed ∷ []

-- `query_reverse` of any.c
pub any_reverse : Request → List Call
unfolding is_any
any_reverse r =
    if r.default_loopback
    then Call.failed ∷ []
    else if is_any r.family r.address
    then Call.add_name_info (some []) none ∷ Call.set_secure ∷ Call.finished ∷ []
    else Call.failed ∷ []

abbrev pub is_named : Option CString → CString → Bool
is_named none name = false
is_named (some node) name = str_eq node name

-- the flags `ipv4` and `ipv6` of loopback.c
pub loops4 : Option CString → Bool
loops4 node =
    is_empty node || is_named node (codes "localhost") || is_named node (codes "localhost4")

pub loops6 : Option CString → Bool
loops6 node =
    is_empty node || is_named node (codes "localhost") || is_named node (codes "localhost6")

abbrev call_if : Bool → Call → List Call
call_if true c = c ∷ []
call_if false c = []

-- `query_forward` of loopback.c
pub loopback_forward : Request → List Call
unfolding loops4 loops6
loopback_forward r =
    let node = get_nodename r in
    if not (loops4 node) && not (loops6 node)
    then Call.failed ∷ []
    else Call.set_canonical_name (codes "localhost")
      ∷ (call_if (loops4 node) (add_node Af.inet inaddr_loopback (pos 0))
          ++ (call_if (loops6 node) (add_node Af.inet6 in6addr_loopback (pos 0))
              ++ (Call.set_secure ∷ Call.finished ∷ [])))

-- `query_reverse` of loopback.c
pub loopback_reverse : Request → List Call
unfolding is_any is_loopback
loopback_reverse r =
    if not (is_any r.family r.address) && not (is_loopback r.family r.address)
    then Call.failed ∷ []
    else Call.add_name_info (some (codes "localhost")) none ∷ Call.set_secure ∷ Call.finished ∷ []

abbrev starts_with_slash : Option CString → Bool
starts_with_slash none = false
starts_with_slash (some []) = false
starts_with_slash (some (c ∷ cs)) = c == b'/'

abbrev text_of : Option CString → CString
text_of none = []
text_of (some s) = s

-- `query_forward` of unix.c
pub unix_forward : Request → List Call
unix_forward r =
    let node = get_nodename r in
    if not (r.family == Af.unix) || not (starts_with_slash node)
    then Call.failed ∷ []
    else Call.add_path Af.unix (text_of node) (pos 0) r.socktype 0 (pos 0) (pos 0) (pos 0) (pos 0)
      ∷ Call.set_secure
      ∷ Call.finished
      ∷ []

-- numerichost.c behind the parser
numerichost_calls : Option CString → Option Parsed → List Call
numerichost_calls name none = Call.failed ∷ []
numerichost_calls name (some parsed) =
    if is_nonneg parsed.ifindex
    then add_node parsed.family parsed.address parsed.ifindex
      ∷ Call.set_canonical_name (text_of name)
      ∷ Call.set_secure
      ∷ Call.finished
      ∷ []
    else Call.failed ∷ []

-- `query_forward` of numerichost.c
pub numerichost_forward : Resolver → Request → List Call
unfolding numerichost_calls
numerichost_forward sys r = numerichost_calls (get_nodename r) (parse_address sys (get_nodename r))

-- An item of `getifaddrs`: no address, or its family, bytes and scope.
pub record Interface : Type 0 where
  pub has_address : Bool
  pub family : ℕ
  pub address : List ℕ
  pub scope : ℕ

-- whether `add_addresses` of hostname.c passes over an item; the two IPv6 regions are compared on
-- their first four bytes
skips_interface : Bool → Interface → Bool
skips_interface filter i =
    if not i.has_address
    then true
    else if i.family == Af.inet
    then filter && str_eq (take 4 i.address) inaddr_loopback
    else if i.family == Af.inet6
    then filter && str_eq (take 4 i.address) (take 4 in6addr_loopback)
    else true

interface_call : Interface → Call
interface_call i = add_node i.family i.address (if i.family == Af.inet6 then pos i.scope else pos 0)

-- `add_addresses` of hostname.c; its result says whether there is a call
pub add_addresses : Bool → List Interface → List Call
unfolding skips_interface interface_call
add_addresses filter [] = []
add_addresses filter (i ∷ is) =
    let rest = add_addresses filter is in
    if skips_interface filter i then rest else interface_call i ∷ rest

abbrev or_calls : List Call → List Call → List Call
or_calls [] ds = ds
or_calls (c ∷ cs) ds = c ∷ cs

-- `query_forward` of hostname.c, with the name of `uname` and the list of `getifaddrs`, or its failure
pub hostname_forward : CString → Option (List Interface) → Request → List Call
unfolding add_addresses
hostname_forward host none r = Call.failed ∷ []
hostname_forward host (some list) r =
    if is_named (get_nodename r) host
    then or_calls (add_addresses true list) (add_addresses false list)
      ++ (Call.set_canonical_name (text_of (get_nodename r)) ∷ Call.finished ∷ [])
    else Call.failed ∷ []
