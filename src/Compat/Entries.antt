-- ===== src/Compat/Entries.antt =====
-- lib/compat.c: the results of a query in the form of gethostbyname.
use netresolve.Prelude.{
  ℕ, ℤ, zero, suc, ◌+◌, Bool, not, ◌&&◌, ◌||◌, Option, none, some, List, [], ◌∷◌, ◌++◌, take, ◌==◌,
  ◌>>=◌, if◌then◌else◌,
}
use netresolve.Types.Af
use netresolve.Query.{Query}
use netresolve.Results.{HostEnt}
use netresolve.Start.{get_count, get_node_info, get_aux_info, get_node_name}
use netresolve.Compat.{int32_max, min_ttl}

abbrev pub address_length : ℕ → ℕ
address_length family = if family == Af.inet then 4 else 16

abbrev pub is_ip : ℕ → Bool
is_ip family = family == Af.inet || family == Af.inet6

-- the part of the loop of `get_hostent` that takes an address, or skips it
unfoldable pub take_address : ℕ → List ℕ → HostEnt → HostEnt
take_address family address he =
    if not (is_ip family) || not (he.family == 0) && not (he.family == family)
    then he
    else record he {
      family = family;
      addresses = he.addresses ++ take (address_length family) address ∷ [];
    }

-- The loop of `get_hostent` over `n` paths from the one of number `i` on.
unfoldable pub hostent_from : Query → ℕ → ℕ → HostEnt → ℤ → Option (HostEnt × ℤ)
unfolding take_address get_node_info get_aux_info
hostent_from q zero i he least = some (he, least)
hostent_from q (suc n) i he least = do
  (family, address, ifindex) ← get_node_info q i
  (priority, weight, ttl) ← get_aux_info q i
  hostent_from q n (i + 1) (take_address family address he) (min_ttl least ttl)

-- `get_hostent`
unfoldable pub get_hostent : Query → Option (HostEnt × ℤ)
unfolding hostent_from get_count get_node_name
get_hostent q =
    hostent_from q (get_count q) 0 (record { name = get_node_name q; family = 0; addresses = [] })
      int32_max

-- `netresolve_query_gethostbyname_done`; the inner `none` is NULL with HOST_NOT_FOUND
pub gethostbyname_done : Query → Option (Option (HostEnt × ℤ))
unfolding get_hostent get_count
gethostbyname_done q =
    if get_count q == 0 then some none else (do answer ← get_hostent q; some (some answer))

-- `netresolve_query_gethostbyaddr_done`
pub gethostbyaddr_done : Query → Option (HostEnt × ℤ)
unfolding get_hostent
gethostbyaddr_done = get_hostent
