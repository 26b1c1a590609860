-- ===== src/Parse.antt =====
-- lib/backend.c: the parsers that backends share. `inet_pton` and `if_nametoindex` are the C library's:
-- an address is its bytes, and the index of an interface that is not there is 0.
mod Paths
mod Examples
use netresolve.Prelude.{
  ℕ, ℤ, pos, negsuc, Bool, true, false, Option, none, some, List, [], ◌∷◌, CString, ◌==◌,
  if◌then◌else◌, codes,
}
use netresolve.Libc.{strtok, strtol, to_int}
use netresolve.Types.Af
use netresolve.Types.Sock
use netresolve.Types.Ipproto

-- What the parsers ask of the system.
pub record Resolver : Type 0 where
  pub inet_pton : ℕ → CString → Option (List ℕ)
  pub if_nametoindex : CString → ℕ

pub record Parsed : Type 0 where
  pub address : List ℕ
  pub family : ℕ
  pub ifindex : ℤ

-- the text before the first '%', and the text behind it or the empty one
split_percent : CString → CString × CString
split_percent [] = ([], [])
split_percent (c ∷ cs) =
    let rest = split_percent cs in if c == b'%' then ([], cs) else (c ∷ rest.0, rest.1)

-- an interface name, or the number that its text stands for, or -1
pub interface_index : Resolver → CString → ℤ
interface_index sys ifname =
    let index = sys.if_nametoindex ifname in
    let (number, rest) = strtol ifname in
    if index == 0 then elim rest [ [] ↦ to_int number | c ∷ cs ↦ negsuc 0 ] else pos index

-- the trial of the two families
parse_text : Resolver → CString → CString → Option Parsed
unfolding interface_index
parse_text sys text ifname = elim (sys.inet_pton Af.inet text) [
  | some address ↦
      some (record { address = address; family = Af.inet; ifindex = interface_index sys ifname })
  | none ↦ elim (sys.inet_pton Af.inet6 text) [
    | some address ↦
        some (record { address = address; family = Af.inet6; ifindex = interface_index sys ifname })
    | none ↦ none
  ]
]

-- `netresolve_backend_parse_address`, with a place for the index; `none` is `false`
unfoldable pub parse_address : Resolver → Option CString → Option Parsed
unfolding split_percent parse_text
parse_address sys none = none
parse_address sys (some string) =
    let (text, ifname) = split_percent string in parse_text sys text ifname

-- struct enum_item
pub record EnumItem : Type 0 where
  pub id : ℕ
  pub name : CString

-- the tables `socktypes` and `protocols`, without their end marks
abbrev pub socktypes : List EnumItem
socktypes =
    record { id = Sock.stream; name = codes "stream" }
    ∷ record { id = Sock.dgram; name = codes "dgram" }
    ∷ record { id = Sock.seqpacket; name = codes "seqpacket" }
    ∷ []

abbrev pub protocols : List EnumItem
protocols =
    record { id = Ipproto.tcp; name = codes "tcp" }
    ∷ record { id = Ipproto.udp; name = codes "udp" }
    ∷ record { id = Ipproto.sctp; name = codes "sctp" }
    ∷ []

-- `enum_id_from_name`: its loop over a table that is given returns in its first round. `none` is the
-- NULL table.
pub enum_id_from_name : Option CString → Option (List EnumItem) → ℤ
enum_id_from_name none list = pos 0
enum_id_from_name (some str) none = to_int (strtol str).0
enum_id_from_name (some str) (some []) = to_int (strtol str).0
enum_id_from_name (some str) (some (item ∷ items)) = pos item.id

pub record ParsedPath : Type 0 where
  pub node : Parsed
  pub socktype : ℤ
  pub protocol : ℤ
  pub port : ℤ

abbrev is_blank : ℕ → Bool
is_blank c = c == b' '

abbrev pub token_of : Option (CString × CString) → Option CString
token_of none = none
token_of (some (token, rest)) = some token

abbrev left_over : Option (CString × CString) → CString
left_over none = []
left_over (some (token, rest)) = rest

-- the three words behind the address
parse_service : Parsed → CString → ParsedPath
unfolding enum_id_from_name
parse_service node text =
    let t₁ = strtok is_blank text in
    let t₂ = strtok is_blank (left_over t₁) in
    let t₃ = strtok is_blank (left_over t₂) in
    record {
      node = node;
      socktype = enum_id_from_name (token_of t₁) (some socktypes);
      protocol = enum_id_from_name (token_of t₂) (some protocols);
      port = enum_id_from_name (token_of t₃) none;
    }

-- `netresolve_backend_parse_path`; `none` is `false`
unfoldable pub parse_path : Resolver → CString → Option ParsedPath
unfolding parse_address parse_service
parse_path sys str =
    let first = strtok is_blank str in
    elim (parse_address sys (token_of first)) [
      | none ↦ none
      | some node ↦ some (parse_service node (left_over first))
    ]
