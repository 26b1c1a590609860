-- ===== src/Nss/Loading.antt =====
-- backends/nss.c: the name of a plugin and of its library, from the first setting of the backend.
pub mod Names
use netresolve.Prelude.{
  ℕ, Bool, true, false, not, Option, none, some, List, [], ◌∷◌, ◌++◌, CString, codes, str_eq, take,
  drop, length, ◌==◌, if◌then◌else◌,
}

pub record ModuleName : Type 0 where
  pub name : CString
  pub filename : CString

-- `strrchr` on a slash: what stands behind the last one
unfoldable pub behind_slash : CString → Option CString
behind_slash [] = none
behind_slash (c ∷ cs) = elim (behind_slash cs) [
  | some rest ↦ some rest
  | none ↦ if c == b'/' then some cs else none
]

-- `strchr` on a dot, and the zero that is put there
unfoldable pub before_dot : CString → CString
before_dot [] = []
before_dot (c ∷ cs) = let rest = before_dot cs in if c == b'.' then [] else c ∷ rest

-- The `memmove` of the bytes of `p` to the front of the buffer, without the zero behind them.
unfoldable pub move_front : CString → CString → CString
move_front p name = p ++ drop (length p) name

-- the name of the plugin in a path, of which `p` is behind the last slash
unfoldable pub path_name : CString → CString → CString
path_name name p =
    before_dot (if str_eq (take 7 p) (codes "libnss_") then move_front (drop 7 p) name else name)

-- the names, by what is behind the last slash; `strdup` and `asprintf` are taken to succeed
unfoldable pub named : CString → Option CString → ModuleName
named name (some p) = record { name = path_name name p; filename = name }
named name none = record { name = name; filename = codes "libnss_" ++ name ++ codes ".so.2" }

-- the parsing of the settings in `initialize`
unfoldable pub module_name : CString → ModuleName
module_name name = named name (behind_slash name)

-- the `snprintf` of `try_symbol_pattern` into a buffer of 1024 bytes
unfoldable pub symbol : CString → CString → CString
symbol name suffix = take 1023 (codes "_nss_" ++ name ++ suffix)
