-- ===== src/Replaced.antt =====
-- compat/libc.c: the functions of the C library over those of lib/compat.c, whose results are given. A
-- buffer is written as the list of its bytes, or as the places in it that pointers are set to.
mod Examples
pub mod Layout
use netresolve.Prelude.{
  ℕ, ℤ, pos, negsuc, zero, suc, ◌+◌, ◌-◌, ◌*◌, Bool, true, false, ◌||◌, Option, none, some, List,
  [], ◌∷◌, ◌++◌, CString, length, ◌==◌, ltb, is_nonzero, if◌then◌else◌,
}
use netresolve.Types.Af

-- EAI_SYSTEM, EAI_OVERFLOW and ERANGE of the C library
abbrev pub eai_system : ℤ
eai_system = negsuc 10

abbrev pub eai_overflow : ℤ
eai_overflow = negsuc 11

abbrev pub erange : ℤ
erange = pos 34

-- `getaddrinfo`: the status, and the list if there is one; the query may not be made
unfoldable pub getaddrinfo {ℓ} : {A : Type ℓ} → Option (ℤ × Option A) → ℤ × Option A
getaddrinfo none = (eai_system, none)
getaddrinfo (some (status, result)) = (status, result)

-- What `netresolve_query_getnameinfo_done` gives.
pub record NameDone : Type 0 where
  pub status : ℤ
  pub host : Option CString
  pub serv : Option CString

-- the size of a string with its zero, or 0 for NULL
abbrev pub string_size : Option CString → ℕ
string_size none = 0
string_size (some s) = suc (length s)

-- whether there is a buffer that a string does not fit
pub overflows : Option CString → Option ℕ → Bool
overflows s none = false
overflows s (some size) = ltb size (string_size s)

abbrev pub zeros : ℕ → List ℕ
zeros zero = []
zeros (suc n) = 0 ∷ zeros n

-- the `memset` of a buffer and the `memcpy` of a string into it
pub filled : Option CString → ℕ → List ℕ
filled none size = zeros size
filled (some s) size = s ++ zeros (size - length s)

pub fill_if : Option CString → Option ℕ → Option (List ℕ)
fill_if s none = none
fill_if s (some size) = some (filled s size)

-- What `getnameinfo` returns, and the bytes of the two buffers if it writes them.
pub record NameWritten : Type 0 where
  pub status : ℤ
  pub host : Option (List ℕ)
  pub serv : Option (List ℕ)

abbrev unwritten : ℤ → NameWritten
unwritten status = record { status = status; host = none; serv = none }

-- `getnameinfo` behind the query, by whether there is an error, and whether a buffer overflows
pub write_if : NameDone → Option ℕ → Option ℕ → Bool → Bool → NameWritten
write_if r hostlen servlen true over = unwritten r.status
write_if r hostlen servlen false true = unwritten eai_overflow
write_if r hostlen servlen false false = record {
  status = pos 0;
  host = fill_if r.host hostlen;
  serv = fill_if r.serv servlen;
}

-- `getnameinfo` behind the query, with the sizes of the buffers that are given
pub write_names : NameDone → Option ℕ → Option ℕ → NameWritten
write_names r hostlen servlen =
    write_if r hostlen servlen (is_nonzero r.status)
      (overflows r.host hostlen || overflows r.serv servlen)

-- `getnameinfo`
pub getnameinfo : Option NameDone → Option ℕ → Option ℕ → NameWritten
getnameinfo none hostlen servlen = unwritten eai_system
getnameinfo (some r) hostlen servlen = write_names r hostlen servlen

-- `gethostbyname2`, and `gethostbyaddr` likewise, with the entry that is kept in a static variable, and
-- what the query gives if it is made: the entry that is freed, and the one that is kept and returned.
unfoldable pub gethostbyname2 {ℓ} :
    {A : Type ℓ} → Option (Option A) → Option A → Option A × Option A
gethostbyname2 none kept = (none, kept)
gethostbyname2 (some found) kept = (kept, found)

-- struct hostent as `gethostbyname2_r` reads it; of the aliases only their number
pub record HostEntry : Type 0 where
  pub name : Option CString
  pub aliases : ℕ
  pub addresses : List (List ℕ)
  pub address_size : ℕ

-- sizeof (char *)
abbrev pub pointer_size : ℕ
pointer_size = 8

-- The places in the buffer, and its size.
pub record Places : Type 0 where
  pub aliases_at : ℕ
  pub list_at : ℕ
  pub data_at : ℕ
  pub total : ℕ

pub places : HostEntry → Places
places e =
    let len_name = string_size e.name in
    let len_aliases = (e.aliases + 1) * pointer_size in
    let count = length e.addresses in
    let len_addr_list = (count + 1) * pointer_size in
    record {
      aliases_at = len_name;
      list_at = len_name + len_aliases;
      data_at = len_name + len_aliases + len_addr_list;
      total = len_aliases + len_name + len_addr_list + count * e.address_size;
    }

-- the loop over the addresses: where each is put
pub address_places : ℕ → ℕ → List (List ℕ) → List ℕ
address_places at size [] = []
address_places at size (a ∷ rest) = at ∷ address_places (at + size) size rest

-- What `gethostbyname2_r` leaves in the buffer: the name at its start, the aliases and the list at their
-- places, and the addresses at theirs.
pub record HostWritten : Type 0 where
  pub aliases_at : ℕ
  pub list_at : ℕ
  pub addresses_at : List ℕ

pub write_entry : HostEntry → HostWritten
write_entry e =
    let p = places e in
    record {
      aliases_at = p.aliases_at;
      list_at = p.list_at;
      addresses_at = address_places p.data_at e.address_size e.addresses;
    }

-- the end of `gethostbyname2_r`, by whether the buffer is too small
pub write_host : HostEntry → Bool → ℤ × Option HostWritten
write_host e true = (erange, none)
write_host e false = (pos 0, some (write_entry e))

-- `gethostbyname2_r`, with `errno` and, if the query is made, what
-- `netresolve_query_gethostbyname_done` returns: NULL where no path was found. That is dereferenced, which
-- the outer `none` of the result stands for.
pub gethostbyname2_r : ℤ → Option (Option HostEntry) → ℕ → Option (ℤ × Option HostWritten)
gethostbyname2_r errno none buflen = some (errno, none)
gethostbyname2_r errno (some none) buflen = none
gethostbyname2_r errno (some (some e)) buflen = some (write_host e (ltb buflen (places e).total))

-- `_res_query`, with the answer if the query is made: what it returns, and what it copies
pub res_query : Option (List ℕ) → ℕ → ℤ × Option (List ℕ)
res_query none length_given = (negsuc 0, none)
res_query (some answer) length_given =
    if ltb length_given (length answer)
    then (pos (length answer), none)
    else (pos (length answer), some answer)
