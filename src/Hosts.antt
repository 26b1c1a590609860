-- ===== src/Hosts.antt =====
-- backends/hosts.c: the hosts file, read by pieces into a buffer of 1024 bytes that strtok cuts up, and
-- the look-ups in its list. A function of the backend is the calls that it makes on a request.
mod LookUps
mod Examples
use netresolve.Prelude.{
  ℕ, ℤ, pos, zero, suc, ◌+◌, ◌-◌, Bool, true, false, not, ◌&&◌, ◌||◌, Option, none, some, List, [],
  ◌∷◌, ◌++◌, CString, str_eq, take, drop, set, length, ◌==◌, if◌then◌else◌,
}
use netresolve.Libc.{strtok, c_str}
use netresolve.Types.{Request}
use netresolve.Types.Af
use netresolve.Query.{Call}
use netresolve.Output.{get_nodename}
use netresolve.Parse.{Resolver, Parsed, parse_address}
use netresolve.Backends.{add_node}
use netresolve.Exec.{find_newline}

-- struct hosts_item
pub record HostsItem : Type 0 where
  pub name : CString
  pub family : ℕ
  pub address : List ℕ
  pub ifindex : ℤ

-- `family_to_length` of hosts.c
abbrev pub address_size : ℕ → ℕ
address_size family = if family == Af.inet then 4 else if family == Af.inet6 then 16 else 0

abbrev is_blank : ℕ → Bool
is_blank c = c == b' ' || c == b'\t'

-- the names that `strtok` finds; each takes at least one byte, so the length of the text is fuel enough
names : ℕ → CString → List CString
names zero s = []
names (suc f) s = elim (strtok is_blank s) [ none ↦ [] | some (token, rest) ↦ token ∷ names f rest ]

-- `add_node`: the item for a name
item_of : Parsed → CString → HostsItem
item_of p name = record {
  name = name;
  family = p.family;
  address = take (address_size p.family) p.address;
  ifindex = p.ifindex;
}

items_of : Parsed → List CString → List HostsItem
unfolding item_of
items_of p [] = []
items_of p (name ∷ ns) = item_of p name ∷ items_of p ns

-- What `strtok` leaves in a string: a zero behind each token, or behind the first one only.
cut : Bool → Bool → List ℕ → List ℕ
cut all inside [] = []
cut all inside (c ∷ cs) =
    let behind = cut all false cs in
    let within = cut all true cs in
    if c == 0
    then c ∷ cs
    else if not (is_blank c)
    then c ∷ within
    else if not inside
    then c ∷ behind
    else 0 ∷ (if all then behind else cs)

item_names : Resolver → Option (CString × CString) → List HostsItem × Bool
unfolding names items_of
item_names sys none = ([], false)
item_names sys (some (token, rest)) = elim (parse_address sys (some token)) [
  | none ↦ ([], false)
  | some p ↦ (items_of p (names (length rest) rest), true)
]

-- `read_item` on the string at the start of the buffer: the items, and the buffer
pub read_item : Resolver → List ℕ → List HostsItem × List ℕ
unfolding item_names cut strtok
read_item sys bytes =
    let (items, all) = item_names sys (strtok is_blank (c_str bytes)) in
    (items, cut all false bytes)

-- the comment signs in the first bytes become zeros
blank_comments : ℕ → List ℕ → List ℕ
blank_comments zero bytes = bytes
blank_comments (suc n) [] = []
blank_comments (suc n) (c ∷ cs) = (if c == b'#' then 0 else c) ∷ blank_comments n cs

-- `buffer`, with `current` as an offset
pub record HostsBuffer : Type 0 where
  pub bytes : List ℕ
  pub current : ℕ

-- the line that ends at an offset is handled, and what stands behind it moved to the front
take_line : Resolver → ℕ → HostsBuffer → List HostsItem × HostsBuffer
unfolding read_item blank_comments
take_line sys k b =
    let (items, bytes) = read_item sys (set (blank_comments k b.bytes) k 0) in
    let left = b.current - suc k in
    (items, record { bytes = take left (drop (suc k) bytes) ++ drop left bytes; current = left })

-- The loop of `read_list` over the lines in the buffer, with one more than `current` as fuel; what is
-- left of a line is handled as a line too.
pub scan_lines : Resolver → ℕ → HostsBuffer → List HostsItem × HostsBuffer
unfolding take_line find_newline
scan_lines sys zero b = ([], b)
scan_lines sys (suc f) b = elim (find_newline (take b.current b.bytes)) [
  | none ↦
      let (items, bytes) = read_item sys (blank_comments b.current b.bytes) in
      (items, record b { bytes = bytes })
  | some k ↦
      let (items, b') = take_line sys k b in
      let (more, b'') = scan_lines sys f b' in (items ++ more, b'')
]

-- The loop of `read_list` over what `read` returns, each time no more than there is room for. It ends
-- when the buffer is full, at the end of the file, and at an error.
pub read_list : Resolver → List (List ℕ) → HostsBuffer → List HostsItem
unfolding scan_lines
read_list sys [] b = []
read_list sys ([] ∷ pieces) b = []
read_list sys ((c ∷ cs) ∷ pieces) b =
    let current = b.current + length (c ∷ cs) in
    let bytes = take b.current b.bytes ++ (c ∷ cs) ++ drop current b.bytes in
    let (items, b') = scan_lines sys (suc current) (record { bytes = bytes; current = current }) in
    let more = read_list sys pieces b' in if b.current == 1024 then [] else items ++ more

-- the end of both look-ups, behind the calls for what was found
unfoldable pub answer_calls : List Call → List Call
answer_calls [] = Call.failed ∷ []
answer_calls (c ∷ cs) = (c ∷ cs) ++ Call.set_secure ∷ Call.finished ∷ []

unfoldable pub named_calls : CString → List HostsItem → List Call
named_calls node [] = []
named_calls node (i ∷ is) =
    let rest = named_calls node is in
    if str_eq node i.name then add_node i.family i.address i.ifindex ∷ rest else rest

unfoldable pub forward_calls : Option CString → List HostsItem → List Call
unfolding named_calls answer_calls
forward_calls none items = Call.failed ∷ []
forward_calls (some node) items = answer_calls (named_calls node items)

-- `query_forward`, with the list that `read_list` makes
unfoldable pub hosts_forward : List HostsItem → Request → List Call
unfolding forward_calls get_nodename
hosts_forward items r = forward_calls (get_nodename r) items

abbrev pub is_item : ℕ → List ℕ → HostsItem → Bool
is_item family address i =
    family == i.family
    && str_eq (take (address_size family) address) (take (address_size family) i.address)

unfoldable pub address_calls : ℕ → List ℕ → List HostsItem → List Call
address_calls family address [] = []
address_calls family address (i ∷ is) =
    let rest = address_calls family address is in
    if is_item family address i then Call.add_name_info (some i.name) none ∷ rest else rest

-- `query_reverse`, with the list that `read_list` makes
unfoldable pub hosts_reverse : List HostsItem → Request → List Call
unfolding address_calls answer_calls
hosts_reverse items r = answer_calls (address_calls r.family r.address items)
