-- ===== src/Nss.antt =====
-- backends/nss.c: loading a name service plugin. The dynamic loader and the functions of the plugin are
-- parameters.
pub mod Forward
mod Examples
pub mod Loading
pub mod Statuses
pub mod Settling
use netresolve.Prelude.{
  ℕ, ℤ, pos, negsuc, Bool, true, false, not, ◌&&◌, ◌||◌, Option, none, some, List, [], ◌∷◌, ◌++◌,
  CString, codes, str_eq, take, drop, length, ◌==◌, eq_ℤ, if◌then◌else◌, is_some,
}
use netresolve.Types.{Request}
use netresolve.Types.Af
use netresolve.Query.{Call}
use netresolve.Output.{get_nodename}
use netresolve.Results.{
  AddrInfo, Status, AddrTuple, HostEnt, ServiceArgs, apply_addrinfo, apply_addrtuple, apply_hostent,
}
use netresolve.Nss.Loading.{ModuleName, module_name, symbol}

-- enum nss_status
abbrev pub tryagain : ℤ
tryagain = negsuc 1

abbrev pub unavail : ℤ
unavail = negsuc 0

abbrev pub notfound : ℤ
notfound = pos 0

abbrev pub success : ℤ
success = pos 1

-- `combine_statuses`
pub combine_statuses : ℤ → ℤ → ℤ
combine_statuses s4 s6 =
    if eq_ℤ s4 tryagain || eq_ℤ s6 tryagain
    then tryagain
    else if eq_ℤ s4 success || eq_ℤ s6 success
    then success
    else if eq_ℤ s4 notfound && eq_ℤ s6 notfound
    then notfound
    else unavail

-- `netresolve_backend_get_addrinfo_hints`
pub record InfoHints : Type 0 where
  pub family : ℕ
  pub socktype : ℕ
  pub protocol : ℕ
  pub passive : Bool

unfoldable pub get_addrinfo_hints : Request → InfoHints
get_addrinfo_hints r = record {
  family = r.family;
  socktype = r.socktype;
  protocol = r.protocol;
  passive = not r.default_loopback;
}

-- What the functions of a plugin return, as far as the code reads it.
pub record InfoResult : Type 0 where
  pub status : Status
  pub items : List AddrInfo
  pub ttl : ℤ

pub record TupleResult : Type 0 where
  pub status : ℤ
  pub items : List AddrTuple
  pub ttl : ℤ

pub record HostResult : Type 0 where
  pub status : ℤ
  pub host : HostEnt
  pub ttl : ℤ
  pub canonical : Option CString

abbrev pub InfoFunction : Type 0
InfoFunction = Option CString → Option CString → InfoHints → InfoResult

abbrev pub TupleFunction : Type 0
TupleFunction = CString → TupleResult

abbrev pub FamilyFunction : Type 0
FamilyFunction = CString → ℕ → HostResult

abbrev pub HostFunction : Type 0
HostFunction = CString → HostResult

-- A loaded library: what `dlsym` finds for a name, for each type of function.
pub record Handle : Type 0 where
  pub info : CString → Option InfoFunction
  pub tuples : CString → Option TupleFunction
  pub family : CString → Option FamilyFunction
  pub host : CString → Option HostFunction

-- The functions of struct priv_nss.
pub record Plugin : Type 0 where
  pub gethostbyname_r : Option HostFunction
  pub gethostbyname2_r : Option FamilyFunction
  pub gethostbyname3_r : Option FamilyFunction
  pub gethostbyname4_r : Option TupleFunction
  pub getaddrinfo : Option InfoFunction

-- `try_symbol_pattern`, with what is behind the name of the module in the pattern
pub try_symbol {ℓ} :
    {F : Type ℓ} → Option CString → CString → (CString → Option F) → CString → CString → Option F
try_symbol none name find api suffix = find (symbol name suffix)
try_symbol (some wanted) name find api suffix =
    if str_eq wanted api then find (symbol name suffix) else none

-- `initialize` on the library that was loaded
pub find_symbols : Option CString → CString → Handle → Plugin
find_symbols api name h = record {
  gethostbyname_r = try_symbol api name h.host (codes "gethostbyname") (codes "_gethostbyname_r");
  gethostbyname2_r =
      try_symbol api name h.family (codes "gethostbyname2") (codes "_gethostbyname2_r");
  gethostbyname3_r =
      try_symbol api name h.family (codes "gethostbyname3") (codes "_gethostbyname3_r");
  gethostbyname4_r =
      try_symbol api name h.tuples (codes "gethostbyname4") (codes "_gethostbyname4_r");
  getaddrinfo = try_symbol api name h.info (codes "getaddrinfo") (codes "_getaddrinfo");
}

-- the second setting, if there is one
pub api_of : List CString → Option CString
api_of [] = none
api_of (api ∷ settings) = some api

pub loaded : Option CString → CString → Option Handle → Option Plugin
loaded api name none = none
loaded api name (some h) = some (find_symbols api name h)

-- `initialize`, with `dlopen`: the functions, if there is a library
pub initialize : (CString → Option Handle) → List CString → Option Plugin
initialize dlopen [] = none
initialize dlopen (setting ∷ settings) =
    let m = module_name setting in loaded (api_of settings) m.name (dlopen m.filename)
