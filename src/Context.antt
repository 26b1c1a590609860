-- ===== src/Context.antt =====
-- lib/context.c: the configuration of a context. A plugin is what `dlopen` finds under its name, which
-- is a parameter, as the environment is.
mod Splitting
mod Examples
use netresolve.Prelude.{
  ℕ, ℤ, pos, negsuc, Bool, true, false, not, ◌&&◌, ◌||◌, Option, none, some, List, [], ◌∷◌, ◌++◌,
  CString, codes, str_eq, ◌==◌, leb, ◌+◌, if◌then◌else◌,
}
use netresolve.Libc.{strtol, to_int}
use netresolve.Types.{Request, zero_request}
use netresolve.Types.Af
use netresolve.Query.{Backend}
use netresolve.Names.{family_from_string}

-- `netresolve_set_backend_string` with no string, in a build with neither c-ares nor unbound
abbrev pub default_backends : CString
default_backends = codes "unix|any|loopback|numerichost|hosts|hostname|avahi"

abbrev pub is_bar : ℕ → Bool
is_bar c = c == b'|'

abbrev pub ends_setting : ℕ → Bool
ends_setting c = c == b' ' || c == b'|'

-- `settings && *settings && **settings`
pub has_name : List CString → Bool
has_name [] = false
has_name ([] ∷ rest) = false
has_name ((c ∷ cs) ∷ rest) = true

keep_named : List CString → List (List CString) → List (List CString)
unfolding has_name
keep_named settings groups = if has_name settings then settings ∷ groups else groups

-- The loop of `netresolve_set_backend_string` that installs the backends, as the list of the settings
-- that it hands to `load_backend`: `word` is the text from `setup` to `end`, and `settings` are those
-- of the current backend.
pub scan_backends : List CString → CString → CString → List (List CString)
unfolding keep_named
scan_backends settings word [] = keep_named (settings ++ word ∷ []) []
scan_backends settings word (c ∷ cs) = elim (is_bar c) [
  | true ↦ keep_named (settings ++ word ∷ []) (scan_backends [] [] cs)
  | false ↦ elim (c == b' ') [
    | true ↦ scan_backends (settings ++ word ∷ []) [] cs
    | false ↦ scan_backends settings (word ++ c ∷ []) cs
  ]
]

-- the name behind the mark of a mandatory backend
plugin_name : CString → CString
plugin_name [] = []
plugin_name (c ∷ cs) = if c == b'+' then cs else c ∷ cs

is_marked : CString → Bool
is_marked [] = false
is_marked (c ∷ cs) = c == b'+'

-- `load_backend`; the parameter says whether there is a plugin of that name
pub load_backend : (CString → Bool) → List CString → Option Backend
unfolding plugin_name is_marked
load_backend plugins [] = none
load_backend plugins (name ∷ rest) =
    if plugins (plugin_name name)
    then some (record {
      mandatory = is_marked name;
      settings = name ∷ rest;
      cleanup = false;
      data_set = false;
    })
    else none

load_all : (CString → Bool) → List (List CString) → List Backend
unfolding load_backend
load_all plugins [] = []
load_all plugins (settings ∷ rest) = elim (load_backend plugins settings) [
  | none ↦ load_all plugins rest
  | some b ↦ b ∷ load_all plugins rest
]

-- `netresolve_set_backend_string`: the backends of the context, with none for NULL
pub set_backend_string : (CString → Bool) → Option CString → List Backend
unfolding load_all scan_backends
set_backend_string plugins none = load_all plugins (scan_backends [] [] default_backends)
set_backend_string plugins (some []) = []
set_backend_string plugins (some (c ∷ cs)) = load_all plugins (scan_backends [] [] (c ∷ cs))

-- The environment variables that a context reads.
pub record Variables : Type 0 where
  pub force_family : Option CString
  pub default_loopback : Option CString
  pub clamp_ttl : Option CString
  pub request_timeout : Option CString
  pub result_timeout : Option CString
  pub backends : Option CString

-- ASCII letters in lower case, as `strcasecmp` compares them
pub to_lower : CString → CString
to_lower [] = []
to_lower (c ∷ cs) = (if leb b'A' c && leb c b'Z' then c + 32 else c) ∷ to_lower cs

-- `getenv_bool`
pub getenv_bool : Option CString → Bool → Bool
unfolding to_lower
getenv_bool none def = def
getenv_bool (some value) def =
    str_eq (to_lower value) (codes "yes")
    || str_eq (to_lower value) (codes "true")
    || str_eq (to_lower value) (codes "1")

-- `getenv_int`
pub getenv_int : Option CString → ℤ → ℤ
getenv_int none def = def
getenv_int (some value) def = to_int (strtol value).0

-- `getenv_family`
pub getenv_family : Option CString → ℕ → ℕ
getenv_family none def = def
getenv_family (some value) def = family_from_string (some value)

-- struct netresolve_context, as far as a query takes from it; no backends is the NULL array
pub record Context : Type 0 where
  pub request : Request
  pub backends : List Backend
  pub force_family : ℕ

-- `netresolve_context_new`
pub context_new : Variables → Context
unfolding getenv_bool getenv_int getenv_family
context_new v = record {
  request = record zero_request {
    default_loopback = getenv_bool v.default_loopback false;
    clamp_ttl = getenv_int v.clamp_ttl (negsuc 0);
    request_timeout = getenv_int v.request_timeout (pos 15000);
    result_timeout = getenv_int v.result_timeout (pos 5000);
  };
  backends = [];
  force_family = getenv_family v.force_family Af.unspec;
}
