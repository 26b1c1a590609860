-- ===== src/Backends/Examples.antt =====
-- The backends at a query on this host (backends/hostname.c and the others).
use netresolve.Prelude.{pos, none, some, List, [], ◌∷◌, codes, true}
use netresolve.Types.{Request, zero_request}
use netresolve.Types.Af
use netresolve.Parse.{Resolver}
use netresolve.Backends.{
  any_forward, any_reverse, loopback_forward, loopback_reverse, unix_forward, numerichost_forward,
  hostname_forward, Interface,
}
use netresolve.Hosts.{HostsItem, hosts_forward, hosts_reverse}
use netresolve.Backends.Settling.{Settles, backends-Settle}

-- A system that reads no addresses.
abbrev sys : Resolver
sys = record { inet_pton = λ f s. none; if_nametoindex = λ s. 0 }

abbrev request : Request
request = record zero_request { nodename = some (codes "host") }

abbrev interfaces : List Interface
interfaces =
    record { has_address = true; family = Af.inet; address = 192 ∷ 0 ∷ 2 ∷ 1 ∷ []; scope = 0 } ∷ []

abbrev hosts : List HostsItem
hosts =
    record {
      name = codes "host";
      family = Af.inet;
      address = 192 ∷ 0 ∷ 2 ∷ 1 ∷ [];
      ifindex = pos 0;
    }
    ∷ []

backends-Settle_example :
    Settles (any_forward request)
    × Settles (any_reverse request)
    × Settles (loopback_forward request)
    × Settles (loopback_reverse request)
    × Settles (unix_forward request)
    × Settles (numerichost_forward sys request)
    × Settles (hostname_forward (codes "host") (some interfaces) request)
    × Settles (hosts_forward hosts request)
    × Settles (hosts_reverse hosts request)
backends-Settle_example = backends-Settle request sys (codes "host") (some interfaces) hosts
