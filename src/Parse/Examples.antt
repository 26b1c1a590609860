-- ===== src/Parse/Examples.antt =====
-- The parsers of lib/backend.c at concrete strings, with a system that reads one address.
use netresolve.Prelude.{
  ◌≡◌, ℕ, refl, pos, none, some, List, [], ◌∷◌, codes, str_eq, ◌==◌, ◌&&◌, if◌then◌else◌,
}
use netresolve.Types.Af
use netresolve.Types.Sock
use netresolve.Types.Ipproto
use netresolve.Parse.{Resolver, Parsed, ParsedPath, parse_address}

abbrev any_address : List ℕ
any_address = 0 ∷ 0 ∷ 0 ∷ 0 ∷ 0 ∷ 0 ∷ 0 ∷ 0 ∷ 0 ∷ 0 ∷ 0 ∷ 0 ∷ 0 ∷ 0 ∷ 0 ∷ 0 ∷ []

-- It reads "::", and has an interface "lo".
abbrev sys : Resolver
sys = record {
  inet_pton = λ f s. if f == Af.inet6 && str_eq s (codes "::") then some any_address else none;
  if_nametoindex = λ s. if str_eq s (codes "lo") then 1 else 0;
}

abbrev scoped : Parsed
scoped = record { address = any_address; family = Af.inet6; ifindex = pos 1 }

-- "dgram" and "udp" are read as a stream over TCP.
abbrev parsed : ParsedPath
parsed = record {
  node = scoped;
  socktype = pos Sock.stream;
  protocol = pos Ipproto.tcp;
  port = pos 53;
}

-- The interface behind the percent sign is looked up by its name.
scoped_read : parse_address sys (some (codes "::%lo")) ≡ some scoped
unfolding parse_address
scoped_read = refl
