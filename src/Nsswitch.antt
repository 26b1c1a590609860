-- ===== src/Nsswitch.antt =====
-- compat/nsswitch.c: the name service plugin over lib/compat.c, whose results are given. A pointer into
-- the caller's buffer is an offset in it.
mod Examples
pub mod ByAddress
pub mod Packing
use netresolve.Prelude.{
  ℕ, ℤ, pos, negsuc, zero, suc, ◌+◌, ◌-◌, ◌*◌, Bool, true, false, Option, none, some, List, [], ◌∷◌,
  ◌++◌, CString, take, length, ◌==◌, ltb, if◌then◌else◌,
}
use netresolve.Types.Af

-- enum nss_status
abbrev pub tryagain : ℤ
tryagain = negsuc 1

abbrev pub unavail : ℤ
unavail = negsuc 0

abbrev pub success : ℤ
success = pos 1

-- struct buffer_t: the offset of `data`, and `length`
pub record Buffer : Type 0 where
  pub at : ℕ
  pub left : ℕ

-- the size of what is appended: that of a string, if there is data and no size
pub append_size : Option CString → ℕ → ℕ
append_size none size = size
append_size (some s) zero = suc (length s)
append_size (some s) (suc n) = suc n

-- `buffer_append`: where the block is put, and the buffer behind; `none` is NULL with ERANGE
pub buffer_append : Option CString → ℕ → Buffer → Option (ℕ × Buffer)
buffer_append content size b =
    let n = append_size content size in
    if ltb b.left n then none else some (b.at, record { at = b.at + n; left = b.left - n })

-- struct addrinfo, with the bytes of its address, and the name that the first item has
pub record InfoItem : Type 0 where
  pub family : ℕ
  pub address : List ℕ

pub record InfoList : Type 0 where
  pub items : List InfoItem
  pub canonname : Option CString

-- `extract_address`
pub extract_address : InfoItem → List ℕ
extract_address i =
    if i.family == Af.inet
    then take 4 i.address
    else if i.family == Af.inet6
    then take 16 i.address
    else []

-- sizeof (struct gaih_addrtuple)
abbrev pub tuple_size : ℕ
tuple_size = 40

-- struct gaih_addrtuple, with its place in the buffer and that of its name
pub record PlacedTuple : Type 0 where
  pub at : ℕ
  pub family : ℕ
  pub address : List ℕ
  pub name : Option ℕ

pub tuple_of : InfoItem → ℕ → Option ℕ → PlacedTuple
tuple_of i at name = record { at = at; family = i.family; address = extract_address i; name = name }

abbrev pub put_first : PlacedTuple → ℤ × List PlacedTuple → ℤ × List PlacedTuple
put_first t (status, ts) = (status, t ∷ ts)

-- the tuple of an item with its name, if there is room for it; `rest` is the loop behind
pub named_tuple :
    (Buffer → ℤ × List PlacedTuple) → InfoItem → ℕ → Option (ℕ × Buffer) → ℤ × List PlacedTuple
named_tuple rest i at none = (tryagain, tuple_of i at none ∷ [])
named_tuple rest i at (some (name, b)) = put_first (tuple_of i at (some name)) (rest b)

-- the tuple of an item, which is the first one if there is a name
pub placed_tuple :
    (Buffer → ℤ × List PlacedTuple)
    → InfoItem
    → Option CString
    → Option (ℕ × Buffer)
    → ℤ × List PlacedTuple
placed_tuple rest i canonname none = (tryagain, [])
placed_tuple rest i none (some (at, b)) = put_first (tuple_of i at none) (rest b)
placed_tuple rest i (some name) (some (at, b)) =
    named_tuple rest i at (buffer_append (some name) 0 b)

-- the loop of `_nss_netresolve_gethostbyname4_r`
pub place_tuples : Option CString → List InfoItem → Buffer → ℤ × List PlacedTuple
place_tuples canonname [] b = (success, [])
place_tuples canonname (i ∷ is) b =
    placed_tuple (place_tuples none is) i canonname (buffer_append none tuple_size b)

-- `_nss_netresolve_gethostbyname4_r`, with what `_nss_netresolve_getaddrinfo` gives
pub gethostbyname4_r : Option InfoList → ℕ → ℤ × List PlacedTuple
gethostbyname4_r none buflen = (unavail, [])
gethostbyname4_r (some l) buflen =
    place_tuples l.canonname l.items (record { at = 0; left = buflen })

-- What `_nss_netresolve_gethostbyname3_r` sets of struct hostent; it never sets `h_aliases`.
pub record PlacedHost : Type 0 where
  pub list_at : ℕ
  pub addresses : List (ℕ × List ℕ)
  pub name : Option ℕ

abbrev pub address_length : ℕ → ℕ
address_length family = if family == Af.inet then 4 else 16

abbrev put_address :
    ℕ × List ℕ → Option (List (ℕ × List ℕ) × Buffer) → Option (List (ℕ × List ℕ) × Buffer)
put_address a none = none
put_address a (some (as', b)) = some (a ∷ as', b)

pub placed_address :
    (Buffer → Option (List (ℕ × List ℕ) × Buffer))
    → InfoItem
    → Option (ℕ × Buffer)
    → Option (List (ℕ × List ℕ) × Buffer)
placed_address rest i none = none
placed_address rest i (some (at, b)) = put_address (at, extract_address i) (rest b)

-- the loop over the addresses; `none` is that there is no room
pub place_addresses : ℕ → List InfoItem → Buffer → Option (List (ℕ × List ℕ) × Buffer)
place_addresses family [] b = some ([], b)
place_addresses family (i ∷ is) b =
    let rest = place_addresses family is in
    let skipped = rest b in
    if i.family == family
    then placed_address rest i (buffer_append none (address_length family) b)
    else skipped

pub placed_name : ℕ → List (ℕ × List ℕ) → Option (ℕ × Buffer) → ℤ × Option PlacedHost
placed_name list_at addresses none = (tryagain, none)
placed_name list_at addresses (some (name, b)) =
    (success, some (record { list_at = list_at; addresses = addresses; name = some name }))

pub placed_addresses :
    ℕ → Option CString → Option (List (ℕ × List ℕ) × Buffer) → ℤ × Option PlacedHost
placed_addresses list_at canonname none = (tryagain, none)
placed_addresses list_at none (some (addresses, b)) =
    (success, some (record { list_at = list_at; addresses = addresses; name = none }))
placed_addresses list_at (some name) (some (addresses, b)) =
    placed_name list_at addresses (buffer_append (some name) 0 b)

pub placed_list : ℕ → InfoList → Option (ℕ × Buffer) → ℤ × Option PlacedHost
placed_list family l none = (tryagain, none)
placed_list family l (some (list_at, b)) =
    placed_addresses list_at l.canonname (place_addresses family l.items b)

-- `_nss_netresolve_gethostbyname3_r`; gethostbyname2_r is the same, and gethostbyname_r for AF_INET
pub gethostbyname3_r : Option InfoList → ℕ → ℕ → ℤ × Option PlacedHost
gethostbyname3_r none family buflen = (unavail, none)
gethostbyname3_r (some l) family buflen =
    placed_list family l
      (buffer_append none ((length l.items + 1) * 8) (record { at = 0; left = buflen }))
