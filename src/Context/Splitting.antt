-- ===== src/Context/Splitting.antt =====
-- The parts into which lib/context.c splits the backend string.
use mathlib.Core.List.{append_assoc, append-nil}
use netresolve.Prelude.{
  ℕ, ◌≡◌, refl, ap, ◌∙◌, true, false, List, [], ◌∷◌, ◌++◌, CString, ◌==◌, if◌then◌else◌, Bool-cases,
  inl, inr, map,
}
use netresolve.Context.{scan_backends, keep_named, has_name, is_bar}

abbrev pub cons_head : ℕ → List CString → List CString
cons_head x [] = (x ∷ []) ∷ []
cons_head x (w ∷ ws) = (x ∷ w) ∷ ws

-- The parts of a text between the separators `c`; there is always at least one.
abbrev pub split_on : ℕ → CString → List CString
split_on c [] = [] ∷ []
split_on c (x ∷ xs) = let rest = split_on c xs in if x == c then [] ∷ rest else cons_head x rest

-- The groups whose first word is not empty.
abbrev pub named : List (List CString) → List (List CString)
named [] = []
named (g ∷ gs) = let rest = named gs in if has_name g then g ∷ rest else rest

abbrev words : CString → List CString
words = split_on b' '

-- The words of a text behind an unfinished word.
abbrev prepend : CString → List CString → List CString
prepend word [] = word ∷ []
prepend word (w ∷ ws) = (word ++ w) ∷ ws

-- What the groups are when the first one is behind some settings and an unfinished word.
abbrev glue : List CString → CString → List CString → List (List CString)
glue settings word [] = []
glue settings word (g ∷ gs) = keep_named (settings ++ prepend word (words g)) (named (map words gs))

split_on-bar : (c x : ℕ) (xs : CString) → (x == c) ≡ true → split_on c (x ∷ xs) ≡ [] ∷ split_on c xs
split_on-bar c x xs e = rw e

split_on-other :
    (c x : ℕ) (xs : CString) → (x == c) ≡ false → split_on c (x ∷ xs) ≡ cons_head x (split_on c xs)
split_on-other c x xs e = rw e

named-keep :
    (g : List CString) (gs : List (List CString)) → keep_named g (named gs) ≡ named (g ∷ gs)
unfolding keep_named
named-keep g gs = refl

split_on-cases :
    (c : ℕ) (s : CString) → (w : CString) × (ws : List CString) × (split_on c s ≡ w ∷ ws)
split_on-cases c [] = ([], [], refl)
split_on-cases c (x ∷ xs) = elim (Bool-cases (x == c)) [
  | inl e ↦ ([], split_on c xs, split_on-bar c x xs e)
  | inr e ↦
      let (w, ws, h) = split_on-cases c xs in
      (x ∷ w, ws, split_on-other c x xs e ∙ ap (cons_head x) h)
]

prepend-nil : (s : CString) → prepend [] (words s) ≡ words s
prepend-nil s = let (w, ws, h) = split_on-cases b' ' s in rw h

glue-nil : (s : CString) → glue [] [] (split_on b'|' s) ≡ named (map words (split_on b'|' s))
glue-nil s =
    let (g, gs, h) = split_on-cases b'|' s in
    rw (h, prepend-nil g, named-keep (words g) (map words gs))

glue-space :
    (c : ℕ) (settings : List CString) (word cs : CString)
    → (c == b'|') ≡ false
    → (c == b' ') ≡ true
    → glue (settings ++ word ∷ []) [] (split_on b'|' cs)
      ≡ glue settings word (split_on b'|' (c ∷ cs))
glue-space c settings word cs n e =
    let (g, gs, h) = split_on-cases b'|' cs in
    rw
      (
        split_on-other b'|' c cs n,
        h,
        split_on-bar b' ' c g e,
        prepend-nil g,
        append-nil word,
        append_assoc settings (word ∷ []) (words g),
      )
      refl

glue-other :
    (c : ℕ) (settings : List CString) (word cs : CString)
    → (c == b'|') ≡ false
    → (c == b' ') ≡ false
    → glue settings (word ++ c ∷ []) (split_on b'|' cs)
      ≡ glue settings word (split_on b'|' (c ∷ cs))
glue-other c settings word cs n e =
    let (g, gs, h) = split_on-cases b'|' cs in
    let (w, ws, k) = split_on-cases b' ' g in
    rw (split_on-other b'|' c cs n, h, split_on-other b' ' c g e, k, append_assoc word (c ∷ []) w)
      refl

module _ (settings : List CString) (word : CString) (c : ℕ) (cs : CString) where
  scan_backends-bar :
      (c == b'|') ≡ true
      → scan_backends settings word (c ∷ cs)
        ≡ keep_named (settings ++ word ∷ []) (scan_backends [] [] cs)
  unfolding scan_backends
  scan_backends-bar e = rw (e, scan_backends)

  scan_backends-space :
      (c == b'|') ≡ false
      → (c == b' ') ≡ true
      → scan_backends settings word (c ∷ cs) ≡ scan_backends (settings ++ word ∷ []) [] cs
  unfolding scan_backends
  scan_backends-space n e = rw (n, scan_backends, e)

  scan_backends-other :
      (c == b'|') ≡ false
      → (c == b' ') ≡ false
      → scan_backends settings word (c ∷ cs) ≡ scan_backends settings (word ++ c ∷ []) cs
  unfolding scan_backends
  scan_backends-other n e = rw (n, scan_backends, e)

glue-bar :
    (c : ℕ) (settings : List CString) (word cs : CString)
    → (c == b'|') ≡ true
    → keep_named (settings ++ word ∷ []) (named (map words (split_on b'|' cs)))
      ≡ glue settings word (split_on b'|' (c ∷ cs))
glue-bar c settings word cs e = rw (split_on-bar b'|' c cs e, append-nil word) refl

scan_backends-glue :
    (s : CString) (settings : List CString) (word : CString)
    → scan_backends settings word s ≡ glue settings word (split_on b'|' s)
unfolding scan_backends
scan_backends-glue [] settings word = rw append-nil
scan_backends-glue (c ∷ cs) settings word = elim (Bool-cases (is_bar c)) [
  | inl e ↦
      scan_backends-bar settings word c cs e
      ∙ ap (keep_named (settings ++ word ∷ [])) (scan_backends-glue cs [] [] ∙ glue-nil cs)
      ∙ glue-bar c settings word cs e
  | inr n ↦ elim (Bool-cases (c == b' ')) [
    | inl e ↦
        scan_backends-space settings word c cs n e
        ∙ scan_backends-glue cs (settings ++ word ∷ []) []
        ∙ glue-space c settings word cs n e
    | inr e ↦
        scan_backends-other settings word c cs n e
        ∙ scan_backends-glue cs settings (word ++ c ∷ [])
        ∙ glue-other c settings word cs n e
  ]
]

-- The groups of settings that the loop finds in a backend string are its parts between bars, each
-- split on spaces, less those whose first word is empty, in order.
pub scan_backends-split_on :
    (s : CString) → scan_backends [] [] s ≡ named (map (split_on b' ') (split_on b'|' s))
scan_backends-split_on s = scan_backends-glue s [] [] ∙ glue-nil s
