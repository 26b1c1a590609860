-- ===== src/Results.antt =====
-- lib/backend.c: what backends make of the results of the C library and of name service plugins. The
-- lists of those results are given, each item with the fields that the code reads; ports are in host
-- order. IN6_IS_ADDR_LINKLOCAL is the C library's, a parameter.
pub mod Outcome
mod Examples
use netresolve.Prelude.{
  ℕ, ℤ, pos, Bool, Option, none, some, List, [], ◌∷◌, ◌++◌, CString, take, ◌==◌, ◌&&◌,
  if◌then◌else◌,
}
use netresolve.Types.Af
use netresolve.Query.{Call}

-- struct addrinfo, with the bytes of its sin_addr or sin6_addr, and its sin6_scope_id
pub record AddrInfo : Type 0 where
  pub family : ℕ
  pub socktype : ℕ
  pub protocol : ℕ
  pub address : List ℕ
  pub scope : ℕ
  pub port : ℕ

-- The status of getaddrinfo: zero, EAI_NONAME or EAI_NODATA, or any other.
pub data Status : Type 0 where
  success nothing other : Status

abbrev zero_address : List ℕ
zero_address = 0 ∷ 0 ∷ 0 ∷ 0 ∷ 0 ∷ 0 ∷ 0 ∷ 0 ∷ 0 ∷ 0 ∷ 0 ∷ 0 ∷ 0 ∷ 0 ∷ 0 ∷ 0 ∷ []

-- one round of the loop of `netresolve_backend_apply_addrinfo`
unfoldable pub addrinfo_call : (List ℕ → Bool) → ℤ → AddrInfo → Call
addrinfo_call linklocal ttl item =
    if item.family == Af.inet
    then Call.add_path item.family (take 4 item.address) (pos 0) item.socktype item.protocol
        (pos item.port) (pos 0) (pos 0) ttl
    else if item.family == Af.inet6
    then Call.add_path item.family (take 16 item.address)
        (if linklocal (take 16 item.address) then pos item.scope else pos 0) item.socktype
        item.protocol (pos item.port) (pos 0) (pos 0) ttl
    else Call.add_path item.family zero_address (pos 0) item.socktype item.protocol (pos 0) (pos 0)
        (pos 0) ttl

unfoldable pub addrinfo_calls : (List ℕ → Bool) → ℤ → List AddrInfo → List Call
unfolding addrinfo_call
addrinfo_calls linklocal ttl [] = []
addrinfo_calls linklocal ttl (item ∷ items) =
    addrinfo_call linklocal ttl item ∷ addrinfo_calls linklocal ttl items

-- `netresolve_backend_apply_addrinfo`
unfoldable pub apply_addrinfo : (List ℕ → Bool) → Status → List AddrInfo → ℤ → List Call
unfolding addrinfo_calls
apply_addrinfo linklocal Status.success items ttl =
    addrinfo_calls linklocal ttl items ++ Call.finished ∷ []
apply_addrinfo linklocal Status.nothing items ttl = Call.finished ∷ []
apply_addrinfo linklocal Status.other items ttl = Call.failed ∷ []

-- struct gaih_addrtuple
pub record AddrTuple : Type 0 where
  pub family : ℕ
  pub address : List ℕ
  pub scope : ℕ

tuple_calls : ℤ → List AddrTuple → List Call
tuple_calls ttl [] = []
tuple_calls ttl (item ∷ items) =
    Call.add_path item.family item.address (pos item.scope) 0 0 (pos 0) (pos 0) (pos 0) ttl
    ∷ tuple_calls ttl items

-- `netresolve_backend_apply_addrtuple`; the first argument is whether the status is a success
pub apply_addrtuple : Bool → List AddrTuple → ℤ → List Call
unfolding tuple_calls
apply_addrtuple found items ttl =
    if found then tuple_calls ttl items ++ Call.finished ∷ [] else Call.failed ∷ []

-- struct hostent
pub record HostEnt : Type 0 where
  pub name : Option CString
  pub family : ℕ
  pub addresses : List (List ℕ)

-- What `netresolve_backend_apply_hostent` is given besides.
pub record ServiceArgs : Type 0 where
  pub socktype : ℕ
  pub protocol : ℕ
  pub port : ℤ
  pub priority : ℤ
  pub weight : ℤ
  pub ttl : ℤ

unfoldable pub host_calls : ServiceArgs → ℕ → List (List ℕ) → List Call
host_calls s family [] = []
host_calls s family (a ∷ rest) =
    Call.add_path family a (pos 0) s.socktype s.protocol s.port s.priority s.weight s.ttl
    ∷ host_calls s family rest

name_call : Option CString → List Call
name_call none = []
name_call (some name) = Call.set_canonical_name name ∷ []

-- `netresolve_backend_apply_hostent`
unfoldable pub apply_hostent : HostEnt → ServiceArgs → List Call
unfolding host_calls name_call
apply_hostent he s = host_calls s he.family he.addresses ++ name_call he.name
