-- ===== src/Options.antt =====
-- lib/request.c: the options of a request, set and read back through variadic calls.
-- A variadic call is the list of its options, each with its argument; the list ends where the call
-- has NETRESOLVE_OPTION_DONE (or NULL), and whatever would stand behind that is not read.
mod RoundTrip
mod Frames
mod Examples
use netresolve.Prelude.{
  ℕ, ℤ, pos, negsuc, suc, zero, Bool, true, false, Option, none, some, List, [], ◌∷◌, ◌++◌, CString,
  is_positive, take, drop,
}
use netresolve.Types.{Request}
use netresolve.Types.Af

-- enum netresolve_option of include/netresolve.h. `unknown` is any other number.
pub data OptionKind : Type 0 where
  default_loopback dns_srv_lookup : OptionKind
  node_name service_name : OptionKind
  family socktype protocol : OptionKind
  ifindex ip4_address ip6_address port : OptionKind
  dns_name dns_class dns_type : OptionKind
  unknown : OptionKind

-- What `get_option` stores through its argument: a bool, an int, a string or NULL, or the address
-- buffer.
pub data Value : Type 0 where
  bool : Bool → Value
  int : ℤ → Value
  string : Option CString → Value
  memory : List ℕ → Value

-- An option with its argument, which has the type that the option wants.
pub data Setting : Type 0 where
  default_loopback : Bool → Setting
  dns_srv_lookup : Bool → Setting
  node_name : Option CString → Setting
  service_name : Option CString → Setting
  family : ℤ → Setting
  socktype : ℤ → Setting
  protocol : ℤ → Setting
  ifindex : ℤ → Setting
  ip4_address : List ℕ → Setting
  ip6_address : List ℕ → Setting
  port : ℤ → Setting
  dns_name : Option CString → Setting
  dns_class : ℤ → Setting
  dns_type : ℤ → Setting
  unknown : Setting

-- `copy_positive`
copy_positive : ℕ → ℤ → ℕ
copy_positive target (pos zero) = target
copy_positive target (pos (suc n)) = suc n
copy_positive target (negsuc n) = target

-- `copy_string`: the target becomes a copy of the source, or NULL
copy_string : Option CString → Option CString → Option CString
copy_string target source = source

-- `memcpy` of the first `n` bytes of `source` over those of `target`
pub memcpy : ℕ → List ℕ → List ℕ → List ℕ
memcpy n source target = take n source ++ drop n target

-- the `switch` of `netresolve_request_set_options_from_va`; `none` is its `default`
unfoldable pub set_option : Request → Setting → Option Request
unfolding copy_positive copy_string memcpy
set_option r (node_name s) = some (record r { nodename = copy_string r.nodename s })
set_option r (service_name s) = some (record r { servname = copy_string r.servname s })
set_option r (family i) = some (record r { family = copy_positive r.family i })
set_option r (socktype i) = some (record r { socktype = copy_positive r.socktype i })
set_option r (protocol i) = some (record r { protocol = copy_positive r.protocol i })
set_option r (ifindex i) = some (record r { ifindex = copy_positive r.ifindex i })
set_option r (ip4_address a) = some (record r { family = Af.inet; address = memcpy 4 a r.address })
set_option r (ip6_address a) =
    some (record r { family = Af.inet6; address = memcpy 16 a r.address })
set_option r (port i) = some (record r { port = copy_positive r.port i })
set_option r (dns_name s) = some (record r { dns_name = copy_string r.dns_name s })
set_option r (dns_class i) = some (record r { dns_class = i })
set_option r (dns_type i) = some (record r { dns_type = i })
set_option r (default_loopback b) = some (record r { default_loopback = b })
set_option r (dns_srv_lookup b) = some (record r { dns_srv_lookup = b })
set_option r unknown = none

-- `netresolve_request_set_options_from_va`: what was set before an unknown option stays set
unfoldable pub set_options : Request → List Setting → Request × Bool
set_options r [] = (r, true)
set_options r (s ∷ l) = elim (set_option r s) [ none ↦ (r, false) | some r' ↦ set_options r' l ]

-- `get_option`; `none` is its `default`
pub get_option : Request → OptionKind → Option Value
get_option r default_loopback = some (bool r.default_loopback)
get_option r dns_srv_lookup = some (bool r.dns_srv_lookup)
get_option r node_name = some (string r.nodename)
get_option r service_name = some (string r.servname)
get_option r family = some (int (pos r.family))
get_option r socktype = some (int (pos r.socktype))
get_option r protocol = some (int (pos r.protocol))
get_option r ifindex = some (int (pos r.ifindex))
get_option r ip4_address = some (memory r.address)
get_option r ip6_address = some (memory r.address)
get_option r port = some (int (pos r.port))
get_option r dns_name = some (string r.dns_name)
get_option r dns_class = some (int r.dns_class)
get_option r dns_type = some (int r.dns_type)
get_option r unknown = none

-- `netresolve_request_get_options_from_va`: the values stored before it returns, and its result
pub get_options : Request → List OptionKind → List Value × Bool
get_options r [] = ([], true)
get_options r (k ∷ l) = elim (get_option r k) [
  | none ↦ ([], false)
  | some v ↦ let rest = get_options r l in (v ∷ rest.0, rest.1)
]

-- The option that a setting names.
abbrev pub kind : Setting → OptionKind
kind (default_loopback b) = default_loopback
kind (dns_srv_lookup b) = dns_srv_lookup
kind (node_name s) = node_name
kind (service_name s) = service_name
kind (family i) = family
kind (socktype i) = socktype
kind (protocol i) = protocol
kind (ifindex i) = ifindex
kind (ip4_address a) = ip4_address
kind (ip6_address a) = ip6_address
kind (port i) = port
kind (dns_name s) = dns_name
kind (dns_class i) = dns_class
kind (dns_type i) = dns_type
kind unknown = unknown
