-- ===== src/Hosts/Examples.antt =====
-- A hosts file read at once, and the same file with a line that two reads split (backends/hosts.c).
use netresolve.Prelude.{
  pos, ◌↔◌, ℕ, zero, suc, ◌≡◌, refl, none, some, List, [], ◌∷◌, codes, CString, map, if◌then◌else◌,
  str_eq,
}
use netresolve.Libc.{strtol, to_int}
use netresolve.Parse.{Resolver, parse_address}
use netresolve.Types.{Request, zero_request}
use netresolve.Query.{Call}
use netresolve.Output.{get_nodename}
use netresolve.Hosts.{HostsItem, HostsBuffer, read_list, hosts_forward, hosts_reverse}
use netresolve.Hosts.LookUps.{Among, Finds, hosts_reverse-hosts_forward}

abbrev sys : Resolver
sys = record {
  inet_pton = λ family text. if str_eq text (codes "::1") then some (1 ∷ []) else none;
  if_nametoindex = λ name. 0;
}

abbrev fill : ℕ → List ℕ
fill zero = []
fill (suc n) = 0 ∷ fill n

abbrev empty : HostsBuffer
empty = record { bytes = fill 1024; current = 0 }

abbrev name_of : HostsItem → CString
name_of i = i.name

abbrev names_read : List (List ℕ) → List CString
names_read pieces = map name_of (read_list sys pieces empty)

whole :
    names_read (codes "::1 localhost home # here\n" ∷ []) ≡ codes "localhost" ∷ codes "home" ∷ []
unfolding read_list strtol to_int parse_address
whole = refl

-- A part of a name is read as a name, and the name itself is lost.
split : names_read (codes "::1 local" ∷ codes "host\n" ∷ []) ≡ codes "local" ∷ []
unfolding read_list strtol to_int parse_address
split = refl

abbrev listed : List HostsItem
listed =
    record { name = codes "one"; family = 2; address = 192 ∷ 0 ∷ 2 ∷ 1 ∷ []; ifindex = pos 0 }
    ∷ record { name = codes "two"; family = 2; address = 192 ∷ 0 ∷ 2 ∷ 2 ∷ []; ifindex = pos 0 }
    ∷ []

abbrev named_two : Request
named_two = record zero_request { nodename = some (codes "two") }

abbrev address_two : Request
address_two = record zero_request { family = 2; address = 192 ∷ 0 ∷ 2 ∷ 2 ∷ [] }

hosts_reverse-hosts_forward_example :
    Among (Call.add_name_info (some (codes "two")) none) (hosts_reverse listed address_two)
    ↔ Finds 2 (192 ∷ 0 ∷ 2 ∷ 2 ∷ []) (hosts_forward listed named_two)
unfolding get_nodename
hosts_reverse-hosts_forward_example =
    hosts_reverse-hosts_forward listed named_two address_two (codes "two") refl
