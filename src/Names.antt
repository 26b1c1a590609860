-- ===== src/Names.antt =====
-- lib/string.c: the names of families, socket types and protocols, and back.
mod Examples
mod RoundTrip
use netresolve.Prelude.{ℕ, Option, none, some, CString, codes, str_eq, ◌==◌, if◌then◌else◌}
use netresolve.Types.Af
use netresolve.Types.Sock
use netresolve.Types.Ipproto

-- `socktype_to_string`
unfoldable pub socktype_to_string : ℕ → CString
socktype_to_string socktype =
    if socktype == 0
    then codes "any"
    else if socktype == Sock.dgram
    then codes "dgram"
    else if socktype == Sock.stream
    then codes "stream"
    else if socktype == Sock.seqpacket
    then codes "seqpacket"
    else if socktype == Sock.raw
    then codes "raw"
    else codes "unknown"

-- `protocol_to_string`
unfoldable pub protocol_to_string : ℕ → CString
protocol_to_string proto =
    if proto == 0
    then codes "any"
    else if proto == Ipproto.udp
    then codes "udp"
    else if proto == Ipproto.tcp
    then codes "tcp"
    else if proto == Ipproto.sctp
    then codes "sctp"
    else codes "unknown"

-- `netresolve_family_from_string`
pub family_from_string : Option CString → ℕ
family_from_string none = Af.unspec
family_from_string (some str) =
    if str_eq str (codes "ip4")
    then Af.inet
    else if str_eq str (codes "ip6")
    then Af.inet6
    else if str_eq str (codes "unix")
    then Af.unix
    else Af.unspec

-- `netresolve_socktype_from_string`
pub socktype_from_string : CString → ℕ
socktype_from_string str =
    if str_eq str (codes "raw")
    then Sock.raw
    else if str_eq str (codes "stream")
    then Sock.stream
    else if str_eq str (codes "dgram")
    then Sock.dgram
    else if str_eq str (codes "seqpacket")
    then Sock.seqpacket
    else 0

-- `netresolve_protocol_from_string`
pub protocol_from_string : CString → ℕ
protocol_from_string str =
    if str_eq str (codes "tcp")
    then Ipproto.tcp
    else if str_eq str (codes "udp")
    then Ipproto.udp
    else if str_eq str (codes "sctp")
    then Ipproto.sctp
    else 0
