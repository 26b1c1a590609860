-- ===== src/Names/Examples.antt =====
-- The names of socket types and protocols (lib/string.c) at concrete numbers.
use netresolve.Prelude.{◌≡◌, refl, codes}
use netresolve.Types.Ipproto
use netresolve.Names.{protocol_to_string, protocol_from_string}

sctp_name : protocol_to_string Ipproto.sctp ≡ codes "sctp"
unfolding protocol_to_string
sctp_name = refl

sctp_number : protocol_from_string (codes "sctp") ≡ Ipproto.sctp
unfolding protocol_from_string
sctp_number = refl
