-- ===== src/Compat/Examples.antt =====
-- The results of a query that found an IPv6 and an IPv4 address.
use netresolve.Prelude.{
  ◌≢◌, ℕ, ℤ, pos, ◌≡◌, refl, inl, inr, true, false, some, List, [], ◌∷◌, ◌++◌, codes, map, ◌==◌,
  Bool, All, arith,
}
use netresolve.Types.{State, AddrPath, zero_request, zero_response, zero_socket}
use netresolve.Types.Af
use netresolve.Types.Sock
use netresolve.Types.Ipproto
use netresolve.Query.{zero_query, Call, Query}
use netresolve.Results.{HostEnt, apply_addrinfo}
use netresolve.Start.{get_node_name}
use netresolve.Compat.{AddrInfoResult, int32_max, getaddrinfo_done}
use netresolve.Compat.Entries.{get_hostent}
use netresolve.Compat.Items.{IsLeast, shown_ttls}
use netresolve.Compat.RoundTrip.{status_of, IsPlain, path_call, getaddrinfo_done-apply_addrinfo}
use netresolve.Compat.Hosts.{first_family, family_addresses, get_hostent-family_addresses}

abbrev ip6 : List ℕ
ip6 = 254 ∷ 128 ∷ 0 ∷ 0 ∷ 0 ∷ 0 ∷ 0 ∷ 0 ∷ 0 ∷ 0 ∷ 0 ∷ 0 ∷ 0 ∷ 0 ∷ 0 ∷ 1 ∷ []

abbrev path_to : ℕ → List ℕ → ℤ → ℤ → AddrPath
path_to family address ifindex ttl = record {
  node = record { family = family; address = address; ifindex = ifindex; reachable = true };
  service = record { socktype = Sock.stream; protocol = Ipproto.tcp; port = pos 80 };
  priority = pos 0;
  weight = pos 0;
  ttl = ttl;
  socket = zero_socket;
}

abbrev paths : List AddrPath
paths =
    path_to Af.inet6 ip6 (pos 2) (pos 60)
    ∷ path_to Af.inet (192 ∷ 0 ∷ 2 ∷ 1 ∷ []) (pos 0) (pos 30)
    ∷ []

abbrev answered : Query
answered = record zero_query {
  state = State.done;
  request = record zero_request { nodename = some (codes "host"); clamp_ttl = ℤ.negsuc 0 };
  response = record zero_response { paths = paths };
  callback = true;
}

abbrev linklocal : List ℕ → Bool
linklocal (b ∷ bytes) = b == 254
linklocal [] = false

plain : All IsPlain paths
plain = (
  ((80, refl, omega arith), inr (refl, refl, (2, refl, omega arith))),
  (((80, refl, omega arith), inl (refl, refl)), tt),
)

getaddrinfo_done-apply_addrinfo_example :
    (r : AddrInfoResult) × (getaddrinfo_done answered ≡ some r)
    × (paths ≢ [] → r.status ≡ pos 0)
    × (apply_addrinfo linklocal (status_of r.status) r.items r.ttl
        ≡ map (path_call linklocal r.ttl) paths ++ Call.finished ∷ [])
    × IsLeast (int32_max ∷ shown_ttls answered) r.ttl
getaddrinfo_done-apply_addrinfo_example = getaddrinfo_done-apply_addrinfo linklocal answered plain

one_family :
    get_hostent answered
    ≡ some (record { name = some (codes "host"); family = Af.inet6; addresses = ip6 ∷ [] }, pos 30)
unfolding get_hostent
one_family = refl

get_hostent-family_addresses_example :
    (he : HostEnt) × (ttl : ℤ) × (get_hostent answered ≡ some (he, ttl))
    × (he.name ≡ get_node_name answered)
    × (he.family ≡ first_family paths)
    × (he.addresses ≡ family_addresses (first_family paths) paths)
    × IsLeast (int32_max ∷ shown_ttls answered) ttl
get_hostent-family_addresses_example = get_hostent-family_addresses answered
