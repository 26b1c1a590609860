-- ===== src/Dns.antt =====
-- backends/dns.c: the state of the backend and its look-ups. The file is built three times, over
-- libunbound, c-ares and the Avahi client, and takes DNS messages apart with ldns: these libraries are
-- parameters. A function of the backend is a function on its state, which records the calls that it
-- makes on the query and the look-ups that the library has not answered.
mod Examples
mod Reverse
pub mod Answers
pub mod Unbound
pub mod Ares
pub mod Avahi
pub mod Setup
mod Laws
mod Endings
mod Starting
use netresolve.Prelude.{
  ℕ, ℤ, zero, suc, pos, negsuc, Bool, true, false, ◌||◌, Option, none, some, List, [], ◌∷◌, ◌++◌,
  CString, codes, ◌==◌, if◌then◌else◌,
}
use netresolve.Types.{Request}
use netresolve.Types.Af
use netresolve.Types.Ipproto
use netresolve.Query.{Call}
use netresolve.Output.{get_nodename}
use Reverse.{reverse_name}

-- struct priv_srv, without its links: the list is that of struct priv_dns
pub record Server : Type 0 where
  pub priority : ℕ
  pub weight : ℕ
  pub port : ℕ
  pub name : Option CString

-- A question that the library was asked; the server stands for the pointer that it hands back.
pub record Lookup : Type 0 where
  pub server : Server
  pub name : Option CString
  pub type : ℤ
  pub cls : ℤ

-- The library that the file is built for.
pub data Build : Type 0 where
  unbound ares avahi : Build

-- A resource record, as ldns presents it: a name, an address with the TTL, or the fields of a service.
pub data Rr : Type 0 where
  cname : CString → Rr
  ptr : CString → Rr
  a : List ℕ → ℕ → Rr
  aaaa : List ℕ → ℕ → Rr
  srv : ℕ → ℕ → ℕ → CString → Rr
  other : ℕ → Rr

-- What the code reads of a message: it takes for granted that there is a first question.
pub record Packet : Type 0 where
  pub rcode : ℕ
  pub question : ℤ
  pub ad : Bool
  pub answer : List Rr

-- `refuses` says which questions the library does not take; `parse` is `ldns_wire2pkt`.
pub record Library : Type 0 where
  pub build : Build
  pub refuses : Lookup → Bool
  pub parse : List ℕ → Option Packet

-- struct priv_dns. `servers` is the ring behind `srv`. `unanswered` are the look-ups that the library
-- has taken and not answered, `calls` the calls made on the query, and `aborts` counts the calls of
-- `abort` and the assertions that failed, behind which nothing is meaningful.
pub record Priv : Type 0 where
  pub request : Request
  pub protocol : ℕ
  pub family : ℕ
  pub address : List ℕ
  pub cls : ℤ
  pub type : ℤ
  pub srv : Server
  pub servers : List Server
  pub pending : ℤ
  pub answered : Bool
  pub failed : Bool
  pub secure : Bool
  pub validate : Bool
  pub unanswered : List Lookup
  pub calls : List Call
  pub aborts : ℕ

abbrev pub type_a : ℤ
type_a = pos 1

abbrev pub type_ptr : ℤ
type_ptr = pos 12

abbrev pub type_aaaa : ℤ
type_aaaa = pos 28

abbrev pub type_srv : ℤ
type_srv = pos 33

-- LDNS_RR_CLASS_IN
abbrev pub class_in : ℤ
class_in = pos 1

-- `++` and `--` on an `int`
abbrev pub increment : ℤ → ℤ
increment (pos n) = pos (suc n)
increment (negsuc zero) = pos 0
increment (negsuc (suc n)) = negsuc n

abbrev pub decrement : ℤ → ℤ
decrement (pos zero) = negsuc 0
decrement (pos (suc n)) = pos n
decrement (negsuc n) = negsuc (suc n)

-- a list without the element at an index
abbrev pub remove {ℓ} : {A : Type ℓ} → ℕ → List A → List A
remove n [] = []
remove zero (x ∷ xs) = xs
remove (suc n) (x ∷ xs) = x ∷ remove n xs

abbrev pub call : Call → Priv → Priv
call c p = record p { calls = p.calls ++ c ∷ [] }

abbrev pub aborted : Priv → Priv
aborted p = record p { aborts = suc p.aborts }

-- What becomes of a question, by whether the library refuses it: libunbound returns an error that the
-- code ignores, c-ares calls `aresdns_callback` with an error at once, and Avahi returns NULL.
pub asked : Build → Lookup → Bool → Priv → Priv
asked build l false p = record p { unanswered = p.unanswered ++ l ∷ [] }
asked Build.unbound l true p = p
asked Build.ares l true p = record p { pending = decrement p.pending; failed = true }
asked Build.avahi l true p = call Call.failed p

-- The name that the library is asked for: Avahi gets that of the server.
abbrev name_asked : Build → Server → Option CString → Option CString
name_asked Build.avahi server name = server.name
name_asked _ server name = name

-- `lookup_dns`
pub lookup_dns : Library → Server → Option CString → ℤ → ℤ → Priv → Priv
lookup_dns lib server name type cls p =
    let l : Lookup = record {
      server = server;
      name = name_asked lib.build server name;
      type = type;
      cls = cls;
    } in
    asked lib.build l (lib.refuses l) (record p { pending = increment p.pending })

-- `protocol_to_string`
unfoldable pub protocol_to_string : ℕ → CString
protocol_to_string proto =
    if proto == Ipproto.udp
    then codes "udp"
    else if proto == Ipproto.tcp
    then codes "tcp"
    else if proto == Ipproto.sctp
    then codes "sctp"
    else codes "0"

-- "%s" of a pointer, as glibc prints it
abbrev printed : Option CString → CString
printed none = codes "(null)"
printed (some s) = s

-- the name that `lookup_srv` looks up
unfoldable pub srv_name : Request → ℕ → CString
unfolding protocol_to_string get_nodename
srv_name r protocol =
    codes "_"
    ++ printed r.servname
    ++ codes "._"
    ++ protocol_to_string protocol
    ++ codes "."
    ++ printed (get_nodename r)

-- `lookup_srv`; `asprintf` is taken to succeed
pub lookup_srv : Library → Priv → Priv
lookup_srv lib p = lookup_dns lib p.srv (some (srv_name p.request p.protocol)) type_srv class_in p

-- `lookup_host`, for each of the two families
pub lookup_family : Library → Server → ℕ → ℤ → Priv → Priv
lookup_family lib server family type p =
    if p.family == family || p.family == Af.unspec
    then lookup_dns lib server server.name type class_in p
    else p

-- `lookup_host`
pub lookup_host : Library → Server → Priv → Priv
lookup_host lib server p =
    lookup_family lib server Af.inet6 type_aaaa (lookup_family lib server Af.inet type_a p)

pub lookup_name : Library → Option CString → Priv → Priv
lookup_name lib none p = aborted p
lookup_name lib (some name) p = lookup_dns lib p.srv (some name) type_ptr class_in p

-- `lookup_address`, the builds other than Avahi's
pub lookup_address : Library → Priv → Priv
lookup_address lib p = lookup_name lib (reverse_name p.family p.address) p
