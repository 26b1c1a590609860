-- ===== src/Service/Scanning.antt =====
-- The loop of `read_services` over the buffer (lib/service.c) and the lines of a text.
use mathlib.Core.List.{append-nil, append_assoc}
use mathlib.Core.Path.{subst}
use netresolve.Prelude.{
  ℕ, ◌+◌, ◌<◌, ◌≡◌, refl, ◌∙◌, true, false, Option, none, some, List, [], ◌∷◌, ◌++◌, arith, All,
  All-append, Bool-cases, Option-cases, inl, inr, CString, length, length-append, ◌==◌, ◌||◌,
  if◌then◌else◌, map,
}
use netresolve.Libc.{c_str}
use netresolve.Service.{ServiceList, read_service, scan, size}

-- The lines that end in a new line character; `line` is what stands before the text.
abbrev pub complete_lines : List ℕ → List ℕ → List (List ℕ)
complete_lines line [] = []
complete_lines line (c ∷ cs) = elim (c == b'\n') [
  | true ↦ line ∷ complete_lines [] cs
  | false ↦ complete_lines (line ++ c ∷ []) cs
]

-- The text of a line, without its comment.
abbrev pub line_text : List ℕ → CString
line_text [] = []
line_text (c ∷ cs) = let rest = line_text cs in if c == b'#' || c == 0 then [] else c ∷ rest

-- The records of some lines, in order.
abbrev pub read_lines : ServiceList → List (List ℕ) → Option ServiceList
read_lines services [] = some services
read_lines services (l ∷ ls) = elim (read_service services (line_text l)) [
  | none ↦ none
  | some services' ↦ read_lines services' ls
]

-- No line, from what stands before the text on, fills the buffer before its end is reached.
abbrev pub LinesFit : ℕ → List ℕ → Type 0
LinesFit n [] = Unit {0}
LinesFit n (c ∷ cs) =
    (n < size) × (elim (c == b'\n') [ true ↦ LinesFit 0 cs | false ↦ LinesFit (n + 1) cs ])

abbrev mark : ℕ → ℕ
mark c = if c == b'#' then 0 else c

abbrev pub IsClean : List ℕ → Type 0
IsClean = All (λ c. ((c == b'\n') ≡ false) × ((c == b'#') ≡ false))

abbrev Result : Type 0
Result = Option (ServiceList × List ℕ)

abbrev pub services_of : Result → Option ServiceList
services_of none = none
services_of (some (s, left)) = some s

abbrev pub go_on : Result → List ℕ → Result
go_on none ys = none
go_on (some (s, left)) ys = scan s left ys

pub scan-append :
    (xs ys seen : List ℕ) (s : ServiceList) → scan s seen (xs ++ ys) ≡ go_on (scan s seen xs) ys
unfolding scan
scan-append [] ys seen s = refl
scan-append (c ∷ xs) ys seen s = elim (Bool-cases (c == b'\n')) [
  | inl e ↦ elim (Option-cases (read_service s (c_str seen))) [
    | inl r ↦ rw (e, scan, r)
    | inr (s', r) ↦ rw (e, scan, r) (scan-append xs ys [] s')
  ]
  | inr e ↦ rw (e, scan) (scan-append xs ys (seen ++ mark c ∷ []) s)
]

pub scan-clean :
    (xs seen : List ℕ) (s : ServiceList) → IsClean xs → scan s seen xs ≡ some (s, seen ++ xs)
unfolding scan
scan-clean [] seen s h = rw append-nil
scan-clean (c ∷ xs) seen s ((hn, hc), h) =
    rw (hn, scan, hc) (scan-clean xs (seen ++ c ∷ []) s h ∙ rw (append_assoc seen (c ∷ []) xs))

mark-clean :
    (c : ℕ) → (c == b'\n') ≡ false → ((mark c == b'\n') ≡ false) × ((mark c == b'#') ≡ false)
mark-clean c h = ground arith

pub left-IsClean :
    (xs seen : List ℕ) (s s' : ServiceList) (left : List ℕ)
    → IsClean seen
    → scan s seen xs ≡ some (s', left)
    → IsClean left
unfolding scan
left-IsClean [] seen s s' left h e = subst IsClean (cc) h
left-IsClean (c ∷ xs) seen s s' left h e = elim (Bool-cases (c == b'\n')) [
  | inl n ↦ elim (Option-cases (read_service s (c_str seen))) [
    | inl r ↦ cc (rw (n, scan, r) at e)
    | inr (s₁, r) ↦ left-IsClean xs [] s₁ s' left tt (rw (n, scan, r) at e)
  ]
  | inr n ↦
      left-IsClean xs (seen ++ mark c ∷ []) s s' left
        (All-append _ seen (mark c ∷ []) h (mark-clean c n, tt)) (rw (n, scan) at e)
]

pub left-LinesFit :
    (xs ys seen : List ℕ) (s s' : ServiceList) (left : List ℕ)
    → scan s seen xs ≡ some (s', left)
    → LinesFit (length seen) (xs ++ ys)
    → LinesFit (length left) ys
unfolding scan
left-LinesFit [] ys seen s s' left e h =
    let same : seen ≡ left = cc in subst (λ l. LinesFit (length l) ys) same h
left-LinesFit (c ∷ xs) ys seen s s' left e h = elim (Bool-cases (c == b'\n')) [
  | inl n ↦ elim (Option-cases (read_service s (c_str seen))) [
    | inl r ↦ cc (rw (n, scan, r) at e)
    | inr (s₁, r) ↦
        left-LinesFit xs ys [] s₁ s' left (rw (n, scan, r) at e) (rw (n, LinesFit) at (h.1))
  ]
  | inr n ↦
      left-LinesFit xs ys (seen ++ mark c ∷ []) s s' left (rw (n, scan) at e)
        (rw (length-append seen (mark c ∷ [])) (rw (n, LinesFit) at (h.1)))
]

c_str-marked : (line : List ℕ) → c_str (map mark line) ≡ line_text line
c_str-marked [] = refl
c_str-marked (c ∷ cs) = ground (arith, c_str-marked cs)

map-snoc : (c : ℕ) (line : List ℕ) → map mark line ++ mark c ∷ [] ≡ map mark (line ++ c ∷ [])
map-snoc c [] = refl
map-snoc c (x ∷ xs) = rw (map-snoc c xs)

lines_end :
    (c : ℕ) (line xs : List ℕ)
    → (c == b'\n') ≡ true
    → complete_lines line (c ∷ xs) ≡ line ∷ complete_lines [] xs
lines_end c line xs n = rw (n, complete_lines)

pub scan-services :
    (xs line : List ℕ) (s : ServiceList)
    → services_of (scan s (map mark line) xs) ≡ read_lines s (complete_lines line xs)
unfolding scan
scan-services [] line s = refl
scan-services (c ∷ xs) line s = elim (Bool-cases (c == b'\n')) [
  | inl n ↦ elim (Option-cases (read_service s (line_text line))) [
    | inl r ↦ rw (lines_end c line xs n, n, scan, c_str-marked line, r, read_lines)
    | inr (s', r) ↦
        rw (lines_end c line xs n, n, scan, c_str-marked line, r, read_lines)
          (scan-services xs [] s')
  ]
  | inr n ↦ rw (n, scan, complete_lines, map-snoc c line) (scan-services xs (line ++ c ∷ []) s)
]
