-- ===== src/Parse/Paths.antt =====
-- What `netresolve_backend_parse_path` of lib/backend.c makes of the words for the socket type and the
-- protocol.
use netresolve.Prelude.{pos, ◌≡◌, refl, ◌⊎◌, inl, inr, Option, none, some, CString, Option-cases}
use mathlib.Core.Path.{subst}
use netresolve.Types.Sock
use netresolve.Types.Ipproto
use netresolve.Libc.{strtok}
use netresolve.Parse.{
  Resolver, Parsed, ParsedPath, socktypes, protocols, enum_id_from_name, parse_service, parse_path,
  parse_address, token_of, is_blank, left_over,
}

first_socktype :
    (s : Option CString)
    → (enum_id_from_name s (some socktypes) ≡ pos 0)
      ⊎ (enum_id_from_name s (some socktypes) ≡ pos Sock.stream)
unfolding enum_id_from_name
first_socktype none = inl refl
first_socktype (some s) = inr refl

first_protocol :
    (s : Option CString)
    → (enum_id_from_name s (some protocols) ≡ pos 0)
      ⊎ (enum_id_from_name s (some protocols) ≡ pos Ipproto.tcp)
unfolding enum_id_from_name
first_protocol none = inl refl
first_protocol (some s) = inr refl

-- The socket type is zero or a stream, and the protocol zero or TCP.
abbrev pub IsStream : ParsedPath → Type 0
IsStream p =
    ((p.socktype ≡ pos 0) ⊎ (p.socktype ≡ pos Sock.stream))
    × ((p.protocol ≡ pos 0) ⊎ (p.protocol ≡ pos Ipproto.tcp))

parse_service-IsStream : (node : Parsed) (text : CString) → IsStream (parse_service node text)
unfolding parse_service
parse_service-IsStream node text = (first_socktype _, first_protocol _)

-- Whatever the words of a path say, the path that is parsed is for a stream over TCP where it says
-- anything: no other socket type or protocol is ever the result.
pub parse_path-IsStream :
    (sys : Resolver) (str : CString) (p : ParsedPath) → parse_path sys str ≡ some p → IsStream p
unfolding parse_path
parse_path-IsStream sys str p e =
    elim (Option-cases (parse_address sys (token_of (strtok is_blank str)))) [
      | inl n ↦ cc (rw (n, parse_path) at e)
      | inr (node, n) ↦
          let node_path = parse_service node (left_over (strtok is_blank str)) in
          let same : some node_path ≡ some p = rw (n, parse_path) at e in
          let equal : node_path ≡ p = cc in
          subst IsStream equal (parse_service-IsStream node (left_over (strtok is_blank str)))
    ]
