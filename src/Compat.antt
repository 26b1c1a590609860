-- ===== src/Compat.antt =====
-- lib/compat.c: the results of a query in the forms of getaddrinfo and getnameinfo. Memory is taken to
-- suffice, and ports are in host order. A dereference of NULL, like a failed assertion of a getter, is
-- `none`.
pub mod Entries
pub mod Items
mod RoundTrip
mod Hosts
mod Examples
use netresolve.Prelude.{
  ℕ, ℤ, zero, suc, pos, negsuc, ◌+◌, ◌-◌, ◌*◌, ◌%◌, Bool, true, false, not, ◌&&◌, ◌||◌, Option,
  none, some, List, [], ◌∷◌, ◌++◌, CString, codes, take, map, ltb_ℤ, eq_ℤ, ◌==◌, ◌>>=◌,
  if◌then◌else◌,
}
use netresolve.Types.Af
use netresolve.Types.Ipproto
use netresolve.Types.{RequestType}
use netresolve.Options.{Setting}
use netresolve.Context.{Context, Variables}
use netresolve.Query.{Query, Env}
use netresolve.Results.{AddrInfo, HostEnt}
use netresolve.Start.{
  query, reverse_settings, get_count, get_node_info, get_service_info, get_aux_info, get_node_name,
  get_service_name,
}

-- `htons` of an int, read back: the low 16 bits
abbrev pub uint16 : ℤ → ℕ
uint16 (pos n) = n % 65536
uint16 (negsuc n) = 65535 - n % 65536

-- an int stored into the uint32_t of a scope
abbrev pub uint32 : ℤ → ℕ
uint32 (pos n) = n % 4294967296
uint32 (negsuc n) = 4294967295 - n % 4294967296

-- What `netresolve_query_get_sockaddr` returns: the bytes that `sa_buffer` gets, by field, and the
-- values that it stores besides.
pub record SockInfo : Type 0 where
  pub address : Option AddrInfo
  pub ttl : ℤ

pub addrinfo_of : ℕ → ℕ → ℕ → List ℕ → ℤ → ℤ → Option AddrInfo
addrinfo_of family socktype protocol address ifindex port =
    if family == Af.inet
    then some (record {
      family = family;
      socktype = socktype;
      protocol = protocol;
      address = take 4 address;
      scope = 0;
      port = uint16 port;
    })
    else if family == Af.inet6
    then some (record {
      family = family;
      socktype = socktype;
      protocol = protocol;
      address = take 16 address;
      scope = uint32 ifindex;
      port = uint16 port;
    })
    else none

-- `netresolve_query_get_sockaddr`; `address` is NULL for any family but the two of the Internet
pub get_sockaddr : Query → ℕ → Option SockInfo
unfolding addrinfo_of get_node_info get_service_info get_aux_info
get_sockaddr q idx = do
  (family, address, ifindex) ← get_node_info q idx
  (socktype, protocol, port) ← get_service_info q idx
  (priority, weight, ttl) ← get_aux_info q idx
  some (record { address = addrinfo_of family socktype protocol address ifindex port; ttl = ttl })

abbrev pub int32_max : ℤ
int32_max = pos 2147483647

abbrev pub min_ttl : ℤ → ℤ → ℤ
min_ttl least ttl = if ltb_ℤ ttl least then ttl else least

-- struct addrinfo as `netresolve_query_getaddrinfo` reads it
pub record Hints : Type 0 where
  pub passive : Bool
  pub canonname : Bool
  pub family : ℤ
  pub socktype : ℤ
  pub protocol : ℤ

abbrev or_empty : Option CString → CString
or_empty none = []
or_empty (some s) = s

-- the options of `netresolve_query_getaddrinfo`
pub getaddrinfo_settings : Option CString → Option CString → Hints → List Setting
getaddrinfo_settings nodename servname hints =
    Setting.node_name nodename
    ∷ Setting.service_name (some (or_empty servname))
    ∷ Setting.family hints.family
    ∷ Setting.socktype hints.socktype
    ∷ Setting.protocol hints.protocol
    ∷ Setting.default_loopback (not hints.passive)
    ∷ []

-- without AI_CANONNAME, the name in the response is made empty
drop_canonname : Hints → Option Query → Option (Option Query)
drop_canonname hints none = if hints.canonname then some none else none
drop_canonname hints (some q) =
    if hints.canonname
    then some (some q)
    else some (some (record q { response = record q.response { nodename = some [] } }))

-- `netresolve_query_getaddrinfo`, with the results of `query`
pub getaddrinfo :
    (CString → Bool)
    → Variables
    → Env
    → Context
    → Option CString
    → Option CString
    → Hints
    → Option (Option Query)
unfolding query getaddrinfo_settings drop_canonname
getaddrinfo plugins v env context nodename servname hints = do
  started ←
      query plugins v env context RequestType.forward (getaddrinfo_settings nodename servname hints)
  drop_canonname hints started

-- What `netresolve_query_getaddrinfo_done` returns and stores.
pub record AddrInfoResult : Type 0 where
  pub status : ℤ
  pub items : List AddrInfo
  pub canonname : Option CString
  pub ttl : ℤ

-- The loop of `netresolve_query_getaddrinfo_done` over `n` paths from the one of number `i` on.
pub addrinfo_from : Query → ℕ → ℕ → ℤ → Option (List AddrInfo × ℤ)
unfolding get_sockaddr
addrinfo_from q zero i least = some ([], least)
addrinfo_from q (suc n) i least = do
  info ← get_sockaddr q i
  item ← info.address
  (items, ttl) ← addrinfo_from q n (i + 1) (min_ttl least info.ttl)
  some (item ∷ items, ttl)

pub first_name : List AddrInfo → Option CString → Option CString
first_name [] name = none
first_name (item ∷ items) none = none
first_name (item ∷ items) (some []) = none
first_name (item ∷ items) (some (c ∷ cs)) = some (c ∷ cs)

-- EAI_NODATA of the C library
abbrev pub eai_nodata : ℤ
eai_nodata = negsuc 4

pub done_status : List AddrInfo → ℤ
done_status [] = eai_nodata
done_status (item ∷ items) = pos 0

-- `netresolve_query_getaddrinfo_done`
pub getaddrinfo_done : Query → Option AddrInfoResult
unfolding get_count addrinfo_from first_name get_node_name done_status
getaddrinfo_done q = do
  (items, ttl) ← addrinfo_from q (get_count q) 0 int32_max
  some (record {
    status = done_status items;
    items = items;
    canonname = first_name items (get_node_name q);
    ttl = ttl;
  })

-- struct sockaddr with its length
pub record SockAddr : Type 0 where
  pub family : ℕ
  pub address : List ℕ
  pub scope : ℕ
  pub port : ℕ
  pub salen : ℕ

-- the options of `netresolve_query_getnameinfo`, or NULL; `dgram` is the flag NI_DGRAM
pub getnameinfo_settings : SockAddr → Bool → Option (List Setting)
unfolding reverse_settings
getnameinfo_settings sa dgram =
    let protocol = pos (if dgram then Ipproto.udp else Ipproto.tcp) in
    if sa.family == Af.inet
    then (if sa.salen == 16
        then reverse_settings sa.family sa.address (pos 0) protocol (pos sa.port)
        else none)
    else if sa.family == Af.inet6
    then (if sa.salen == 28
        then reverse_settings sa.family sa.address (pos sa.scope) protocol (pos sa.port)
        else none)
    else none

-- `netresolve_query_getnameinfo_done`
pub getnameinfo_done : Query → Option CString × Option CString
unfolding get_node_name get_service_name
getnameinfo_done q = (get_node_name q, get_service_name q)

-- the options of `netresolve_query_gethostbyname`
pub gethostbyname_settings : Option CString → ℤ → List Setting
gethostbyname_settings name family = Setting.node_name name ∷ Setting.family family ∷ []
