-- ===== src/TextOutput.antt =====
-- lib/string.c: requests, paths and responses as text in the buffer of a query. The text of the LDNS
-- library is left out, as in a build without it.
mod Bounds
mod Examples
use netresolve.Prelude.{
  ℕ, ℤ, pos, zero, suc, ◌+◌, ◌-◌, ◌/◌, ◌%◌, Bool, true, false, ◌||◌, Option, none, some, List, [],
  ◌∷◌, ◌++◌, CString, codes, take, length, map, foldl, ltb, ◌==◌, ◌>>=◌, if◌then◌else◌, is_nonzero,
}
use netresolve.Libc.{c_str, decimal}
use netresolve.Types.{AddrPath}
use netresolve.Types.Af
use netresolve.Query.{Query}
use netresolve.Output.{get_nodename}
use netresolve.Names.{socktype_to_string, protocol_to_string}
use netresolve.Start.{
  get_count, get_node_info, get_service_info, get_aux_info, get_node_name, get_service_name,
  get_dns_answer, get_secure,
}

-- What the text depends on from outside: the C library's inet_ntop and if_indextoname (`none` is
-- NULL), PACKAGE_NAME and VERSION.
pub record TextEnv : Type 0 where
  pub inet_ntop : ℕ → List ℕ → CString
  pub if_indextoname : ℤ → Option CString
  pub package_name : CString
  pub version : CString

-- `query->buffer`: the string in it, how far `current` stands from its start, and whether `vsnprintf`
-- was called with `current` behind `end`, which makes its size negative and so, as a size_t, huge.
pub record Buffer : Type 0 where
  pub text : CString
  pub current : ℕ
  pub past : Bool

abbrev pub buffer_size : ℕ
buffer_size = 1024

abbrev pub new_buffer : Buffer
new_buffer = record { text = []; current = 0; past = false }

-- `bprintf`, on the text that the format makes. `vsnprintf` writes what fits before a terminating zero,
-- and returns the length of all.
pub bprintf : Buffer → CString → Buffer
bprintf b s = record {
  text = b.text ++ take (buffer_size - b.current - 1) s;
  current = b.current + length s;
  past = b.past || ltb buffer_size b.current;
}

interface_suffix : TextEnv → ℤ → CString
unfolding decimal
interface_suffix env ifindex =
    if is_nonzero ifindex
    then (b'%' ∷ (elim (env.if_indextoname ifindex) [ none ↦ decimal ifindex | some name ↦ name ]))
    else []

abbrev spaced : List CString → CString
spaced [] = []
spaced (s ∷ ss) = b' ' ∷ s ++ spaced ss

address_text : TextEnv → ℕ → List ℕ → CString
address_text env family address =
    if family == Af.inet || family == Af.inet6 then env.inet_ntop family address else []

-- `add_path`, the text of its one call of `bprintf`; `none` is a failed assertion
path_text : TextEnv → Query → ℕ → Option CString
unfolding interface_suffix address_text socktype_to_string protocol_to_string decimal get_node_info
    get_service_info get_aux_info
path_text env q i = do
  (family, address, ifindex) ← get_node_info q i
  (socktype, protocol, port) ← get_service_info q i
  (priority, weight, ttl) ← get_aux_info q i
  some (
      if family == Af.unix
      then codes "unix" ++ spaced (c_str address ∷ socktype_to_string socktype ∷ [])
      else codes "ip"
        ++ spaced (
            (address_text env family address ++ interface_suffix env ifindex)
            ∷ socktype_to_string socktype
            ∷ protocol_to_string protocol
            ∷ decimal port
            ∷ decimal priority
            ∷ decimal weight
            ∷ decimal ttl
            ∷ []))

abbrev print : List CString → Buffer
print pieces = foldl bprintf new_buffer pieces

abbrev line : CString → CString → CString
line keyword value = keyword ++ b' ' ∷ value ++ b'\n' ∷ []

optional_line : CString → Option CString → List CString
optional_line keyword none = []
optional_line keyword (some value) = line keyword value ∷ []

abbrev title : TextEnv → CString → CString
title env keyword = keyword ++ b' ' ∷ env.package_name ++ b' ' ∷ env.version ++ b'\n' ∷ []

abbrev new_line : CString
new_line = b'\n' ∷ []

-- The calls of `bprintf` of `netresolve_get_request_string`, but for the last.
pub request_pieces : TextEnv → Query → List CString
unfolding optional_line get_nodename
request_pieces env q =
    title env (codes "request") ∷ optional_line (codes "node") (get_nodename q.request)
    ++ optional_line (codes "service") q.request.servname

-- `netresolve_get_request_string`
pub get_request_string : TextEnv → Query → Buffer
unfolding request_pieces bprintf
get_request_string env q = print (request_pieces env q ++ new_line ∷ [])

-- `netresolve_get_path_string`
pub get_path_string : TextEnv → Query → ℕ → Option Buffer
unfolding path_text bprintf
get_path_string env q i = do text ← path_text env q i; some (print (text ∷ []))

-- The loop over `n` paths from the one of number `i` on.
path_pieces : TextEnv → Query → ℕ → ℕ → Option (List CString)
unfolding path_text
path_pieces env q zero i = some []
path_pieces env q (suc n) i = do
  text ← path_text env q i
  texts ← path_pieces env q n (i + 1)
  some (text ∷ new_line ∷ texts)

abbrev hex_digit : ℕ → ℕ
hex_digit n = if ltb n 10 then b'0' + n else b'a' + (n - 10)

-- "%02hhx"
abbrev hex_byte : ℕ → CString
hex_byte n = hex_digit (n / 16 % 16) ∷ hex_digit (n % 16) ∷ []

dns_pieces : Option (List ℕ) → List CString
unfolding decimal
dns_pieces none = []
dns_pieces (some []) = []
dns_pieces (some (byte ∷ answer)) =
    (codes "dns " ++ decimal (pos (length (byte ∷ answer))) ++ codes " 0x")
      ∷ map hex_byte (byte ∷ answer)
    ++ new_line ∷ []

secure_pieces : Bool → List CString
secure_pieces secure = if secure then codes "secure\n" ∷ [] else []

-- The calls of `bprintf` of `netresolve_get_response_string`, but for the last.
pub response_pieces : TextEnv → Query → Option (List CString)
unfolding optional_line path_pieces dns_pieces secure_pieces get_count get_node_name
    get_service_name get_dns_answer get_secure
response_pieces env q = do
  texts ← path_pieces env q (get_count q) 0
  some (
      title env (codes "response") ∷ optional_line (codes "name") (get_node_name q)
      ++ optional_line (codes "service") (get_service_name q)
      ++ texts
      ++ dns_pieces (get_dns_answer q)
      ++ secure_pieces (get_secure q))

-- `netresolve_get_response_string`
pub get_response_string : TextEnv → Query → Option Buffer
unfolding response_pieces bprintf
get_response_string env q = do
  pieces ← response_pieces env q
  some (print (pieces ++ new_line ∷ []))
