-- ===== src/Names/RoundTrip.antt =====
-- Names that are printed and read back (lib/string.c).
use netresolve.Prelude.{ℕ, ◌≡◌, Bool, ◌||◌, ◌==◌, if◌then◌else◌, arith}
use netresolve.Types.Sock
use netresolve.Types.Ipproto
use netresolve.Names.{
  socktype_to_string, protocol_to_string, socktype_from_string, protocol_from_string,
}

-- Whether the library has a name for a socket type, and for a protocol.
abbrev pub is_socktype : ℕ → Bool
is_socktype t = t == Sock.dgram || t == Sock.stream || t == Sock.seqpacket || t == Sock.raw

abbrev pub is_protocol : ℕ → Bool
is_protocol p = p == Ipproto.udp || p == Ipproto.tcp || p == Ipproto.sctp

socktype_from_string-to_string :
    (t : ℕ) → socktype_from_string (socktype_to_string t) ≡ (if is_socktype t then t else 0)
unfolding socktype_from_string socktype_to_string
socktype_from_string-to_string t = ground arith

protocol_from_string-to_string :
    (p : ℕ) → protocol_from_string (protocol_to_string p) ≡ (if is_protocol p then p else 0)
unfolding protocol_from_string protocol_to_string
protocol_from_string-to_string p = ground arith

-- The name of a socket type or protocol reads back as that type or protocol if it is one of the four or
-- three with a name; any other, also "any" and "unknown", reads back as zero, which asks for any.
pub from_string-to_string :
    (t p : ℕ)
    → (socktype_from_string (socktype_to_string t) ≡ (if is_socktype t then t else 0))
      × (protocol_from_string (protocol_to_string p) ≡ (if is_protocol p then p else 0))
from_string-to_string t p = (socktype_from_string-to_string t, protocol_from_string-to_string p)
