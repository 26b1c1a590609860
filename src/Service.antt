-- ===== src/Service.antt =====
-- lib/service.c: the list of services, read from a file.
pub mod Scanning
pub mod Search
mod Reading
mod Capacity
mod Queries
mod Examples
use netresolve.Prelude.{
  ℕ, ℤ, pos, zero, suc, ◌+◌, ◌*◌, ◌-◌, ◌≤◌, Bool, true, false, not, ◌&&◌, ◌||◌, Option, none, some,
  List, [], ◌∷◌, ◌++◌, CString, codes, str_eq, length, take, drop, ◌==◌, leb, ltb, if◌then◌else◌,
  is_nonzero, is_some, eq_ℤ,
}
use netresolve.Libc.{strtok, strtol, to_int, decimal, c_str}
use netresolve.Types.Sock
use netresolve.Types.Ipproto

-- struct netresolve_protocol
pub record Protocol : Type 0 where
  pub socktype : ℕ
  pub protocol : ℕ
  pub defaultpair : Bool
  pub name : CString

-- the table `protocols`, without its end mark
abbrev protocols : List Protocol
protocols =
    record {
      socktype = Sock.stream;
      protocol = Ipproto.tcp;
      defaultpair = true;
      name = codes "tcp";
    }
    ∷ record {
      socktype = Sock.dgram;
      protocol = Ipproto.udp;
      defaultpair = true;
      name = codes "udp";
    }
    ∷ record {
      socktype = Sock.dccp;
      protocol = Ipproto.dccp;
      defaultpair = false;
      name = codes "dccp";
    }
    ∷ record {
      socktype = Sock.dgram;
      protocol = Ipproto.udplite;
      defaultpair = false;
      name = codes "udplite";
    }
    ∷ record {
      socktype = Sock.stream;
      protocol = Ipproto.sctp;
      defaultpair = false;
      name = codes "sctp";
    }
    ∷ record {
      socktype = Sock.seqpacket;
      protocol = Ipproto.sctp;
      defaultpair = false;
      name = codes "sctp";
    }
    ∷ record { socktype = Sock.raw; protocol = 0; defaultpair = true; name = codes "raw" }
    ∷ []

-- struct netresolve_service; the end mark of a list is the record with no name
pub record ServiceRecord : Type 0 where
  pub protocol : ℕ
  pub port : ℤ
  pub name : Option CString

-- struct netresolve_service_list; `count` is the length of `items`
pub record ServiceList : Type 0 where
  pub items : List ServiceRecord
  pub reserved : ℕ

-- the list that `calloc` leaves
abbrev pub empty_list : ServiceList
empty_list = record { items = []; reserved = 0 }

find_protocol : List Protocol → CString → ℕ
find_protocol [] str = 0
find_protocol (p ∷ ps) str =
    let rest = find_protocol ps str in if str_eq str p.name then p.protocol else rest

-- `protocol_from_string`
pub protocol_from_string : Option CString → ℕ
unfolding find_protocol
protocol_from_string none = 0
protocol_from_string (some str) = find_protocol protocols str

-- `add_service`: the array is enlarged first if it is full
pub add_service : ServiceList → ℕ → ℤ → Option CString → ServiceList
add_service services protocol port name =
    let full = length services.items == services.reserved in
    let grown = if services.reserved == 0 then 256 else services.reserved * 2 in
    record {
      items = services.items ++ (record { protocol = protocol; port = port; name = name } ∷ []);
      reserved = if full then grown else services.reserved;
    }

abbrev is_blank : ℕ → Bool
is_blank c = c == b' ' || c == b'\t'

abbrev is_slash : ℕ → Bool
is_slash c = c == b'/'

-- the loop over the aliases; each round uses up at least one byte, so the length of the text is fuel
-- enough
add_aliases : ℕ → ServiceList → ℕ → ℤ → CString → ServiceList
add_aliases zero services protocol port text = services
add_aliases (suc f) services protocol port text = elim (strtok is_blank text) [
  | none ↦ services
  | some (alias, rest) ↦
      add_aliases f (add_service services protocol port (some alias)) protocol port rest
]

abbrev left_over : Option (CString × CString) → CString
left_over none = []
left_over (some (token, rest)) = rest

abbrev token_of : Option (CString × CString) → Option CString
token_of none = none
token_of (some (token, rest)) = some token

-- the part of `read_service` behind the port
read_protocol : ServiceList → CString → ℤ → CString → ServiceList
unfolding add_aliases
read_protocol services name port text =
    let tokens = strtok is_blank text in
    let protocol = protocol_from_string (token_of tokens) in
    if protocol == 0
    then services
    else add_aliases (length text) (add_service services protocol port (some name)) protocol port
        (left_over tokens)

read_port : ServiceList → CString → Option (CString × CString) → Option ServiceList
unfolding read_protocol
read_port services name none = none
read_port services name (some (number, rest)) =
    let port = to_int (strtol number).0 in
    some (if is_nonzero port then read_protocol services name port rest else services)

-- `read_service`; `none` is the call of `strtol` on the NULL pointer that `strtok_r` returns when
-- nothing stands behind the name
pub read_service : ServiceList → CString → Option ServiceList
unfolding read_port
read_service services line = elim (strtok is_blank line) [
  | none ↦ some services
  | some (name, rest) ↦ read_port services name (strtok is_slash rest)
]

-- The loop over the buffer in `read_services`: `seen` is what it has passed since the last new line.
-- It returns what is left in the buffer, with its comment marks replaced.
pub scan : ServiceList → List ℕ → List ℕ → Option (ServiceList × List ℕ)
scan services seen [] = some (services, seen)
scan services seen (c ∷ cs) = elim (c == b'\n') [
  | true ↦ elim (read_service services (c_str seen)) [
    | none ↦ none
    | some services' ↦ scan services' [] cs
  ]
  | false ↦ scan services (seen ++ (if c == b'#' then 0 else c) ∷ []) cs
]

-- SIZE
abbrev pub size : ℕ
size = 1024

abbrev smaller : ℕ → ℕ → ℕ
smaller a b = if leb a b then a else b

-- the state of the loop of `read_services`: the list, the buffer up to `current`, the file's rest
abbrev Loop : Type 0
Loop = ServiceList → List ℕ → List ℕ → Option ServiceList

resume : Loop → List ℕ → Option (ServiceList × List ℕ) → Option ServiceList
resume loop file none = none
resume loop file (some (services, buffer)) = loop services buffer file

-- one round behind `read`: nothing was read, or `new` passes over the buffer
after_read : Loop → ServiceList → List ℕ → List ℕ → List ℕ → Option ServiceList
unfolding resume scan
after_read loop services buffer [] file = some services
after_read loop services buffer (c ∷ cs) file =
    resume loop file (scan services [] (buffer ++ c ∷ cs))

-- The loop of `read_services` over `read`. `sizes` says how much each call is ready to return; a call
-- that returns nothing, as at the end of the file, ends the loop, and so does a full buffer.
read_loop : List ℕ → Loop
unfolding after_read
read_loop [] services buffer file = some services
read_loop (k ∷ sizes) services buffer file =
    let got = smaller k (size - length buffer) in
    after_read (read_loop sizes) services buffer (take got file) (drop got file)

-- the end of `read_services`: the end mark is added, and the array is cut to its length
mark_end : ServiceList → ServiceList
mark_end services =
    let marked = add_service services 0 (pos 0) none in
    record marked { reserved = length marked.items }

pub close_list : Option ServiceList → Option ServiceList
close_list none = none
close_list (some services) = some (mark_end services)

-- `read_services` behind `open`
pub read_services : List ℕ → List ℕ → Option ServiceList
unfolding read_loop close_list
read_services sizes file = close_list (read_loop sizes empty_list [] file)
