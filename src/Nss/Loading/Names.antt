-- ===== src/Nss/Loading/Names.antt =====
-- The name that backends/nss.c gives the plugin of a library in a directory.
use netresolve.Prelude.{
  ℕ, ◌≡◌, refl, ◌∙◌, ap, Bool, true, not, ◌&&◌, none, some, [], ◌∷◌, ◌++◌, CString, codes, drop,
  length, ◌==◌, arith,
}
use netresolve.Nss.Loading.{behind_slash, before_dot, move_front, path_name, named, module_name}

-- whether a byte does not occur
abbrev pub lacks : ℕ → CString → Bool
lacks b [] = true
lacks b (c ∷ cs) = not (c == b) && lacks b cs

behind_slash-lacks : (cs : CString) → lacks b'/' cs ≡ true → behind_slash cs ≡ none
unfolding behind_slash
behind_slash-lacks [] h = refl
behind_slash-lacks (c ∷ cs) h = ground (arith, behind_slash-lacks cs)

behind_slash-path :
    (dir file : CString) → lacks b'/' file ≡ true → behind_slash (dir ++ b'/' ∷ file) ≡ some file
unfolding behind_slash
behind_slash-path [] file h = rw (behind_slash-lacks file h)
behind_slash-path (c ∷ dir) file h = rw (behind_slash-path dir file h)

before_dot-lacks :
    (stem rest : CString) → lacks b'.' stem ≡ true → before_dot (stem ++ b'.' ∷ rest) ≡ stem
unfolding before_dot
before_dot-lacks [] rest h = refl
before_dot-lacks (c ∷ stem) rest h = ground (arith, before_dot-lacks stem rest)

append_assoc : (xs ys zs : CString) → (xs ++ ys) ++ zs ≡ xs ++ (ys ++ zs)
append_assoc [] ys zs = refl
append_assoc (x ∷ xs) ys zs = ap (λ s. x ∷ s) (append_assoc xs ys zs)

-- The file of a plugin in a directory.
abbrev pub library_path : CString → CString → CString → CString
library_path dir stem ext = dir ++ b'/' ∷ (codes "libnss_" ++ (stem ++ b'.' ∷ ext))

lacks-append :
    (b : ℕ) (xs ys : CString) → lacks b xs ≡ true → lacks b ys ≡ true → lacks b (xs ++ ys) ≡ true
lacks-append b [] ys h k = k
lacks-append b (x ∷ xs) ys h k = ground (arith, lacks-append b xs ys)

path_name-library :
    (name stem ext : CString)
    → lacks b'.' stem ≡ true
    → path_name name (codes "libnss_" ++ (stem ++ b'.' ∷ ext)) ≡ stem
unfolding path_name move_front
path_name-library name stem ext plain =
    ap before_dot (append_assoc stem (b'.' ∷ ext) (drop (length (stem ++ b'.' ∷ ext)) name))
    ∙ before_dot-lacks stem _ plain

-- For a file libnss_STEM.EXT in any directory, with no dot in STEM and no slash in STEM or EXT, the
-- library that is loaded is that file and the name of the plugin is STEM, though the name is moved to
-- the front of its buffer without the zero behind it.
pub module_name-library :
    (dir stem ext : CString)
    → lacks b'.' stem ≡ true
    → lacks b'/' stem ≡ true
    → lacks b'/' ext ≡ true
    → module_name (library_path dir stem ext)
      ≡ record { name = stem; filename = library_path dir stem ext }
unfolding module_name named
module_name-library dir stem ext plain no_slash ext_slash =
    ap (named (library_path dir stem ext)) (
      behind_slash-path dir (codes "libnss_" ++ (stem ++ b'.' ∷ ext))
        (lacks-append b'/' stem (b'.' ∷ ext) no_slash ext_slash))
    ∙ ap (λ s. record { name = s; filename = library_path dir stem ext })
        (path_name-library (library_path dir stem ext) stem ext plain)
