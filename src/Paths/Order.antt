-- ===== src/Paths/Order.antt =====
-- The order of the path list (lib/backend.c).
use mathlib.Core.List.{Perm}
use mathlib.Core.List.Perm
use netresolve.Prelude.{
  ap, ◌≡◌, refl, inl, inr, Bool, true, false, List, [], ◌∷◌, ◌++◌, arith, All, Bool-cases,
}
use netresolve.Types.{AddrPath, Node}
use netresolve.Paths.{check_reachability, path_cmp, insert_path, is_negative}

-- `p` is preferred to `q`.
abbrev pub Precedes : AddrPath → AddrPath → Type 0
Precedes p q = is_negative (path_cmp true p q) ≡ true

-- No path stands behind one that it is preferred to.
abbrev pub IsSorted : List AddrPath → Type 0
IsSorted [] = Unit {0}
IsSorted (p ∷ ps) = All (λ q. ¬ Precedes q p) ps × IsSorted ps

-- The list is empty, or its first path comes behind `path`.
abbrev pub Heads : Bool → AddrPath → List AddrPath → Type 0
Heads sort path [] = Unit {0}
Heads sort path (q ∷ qs) = is_negative (path_cmp sort path q) ≡ true

pub check_reachability-family :
    (connects : Node → Bool) (p : AddrPath)
    → (check_reachability connects p).node.family ≡ p.node.family
unfolding check_reachability
check_reachability-family connects p = ground arith

Precedes-asym : (p q : AddrPath) → Precedes p q → ¬ Precedes q p
unfolding path_cmp
Precedes-asym p q h = ground arith

Precedes-trans : (p q r : AddrPath) → Precedes p q → Precedes q r → Precedes p r
unfolding path_cmp
Precedes-trans p q r h k = ground arith

pub insert_path-perm :
    (sort : Bool) (path : AddrPath) (ps : List AddrPath)
    → Perm (insert_path sort path ps) (path ∷ ps)
unfolding insert_path
insert_path-perm sort path [] = Perm.refl (path ∷ [])
insert_path-perm sort path (p ∷ ps) = elim (Bool-cases (is_negative (path_cmp sort path p))) [
  | inl e ↦ rw e (Perm.refl (path ∷ p ∷ ps))
  | inr e ↦ rw e (Perm.trans (Perm.cons p (insert_path-perm sort path ps)) (Perm.swap path p ps))
]

pub insert_path-All :
    (P : AddrPath → Type 0) (sort : Bool) (path : AddrPath) (ps : List AddrPath)
    → P path
    → All P ps
    → All P (insert_path sort path ps)
unfolding insert_path
insert_path-All P sort path [] h hs = (h, tt)
insert_path-All P sort path (p ∷ ps) h (hp, hs) =
    elim (Bool-cases (is_negative (path_cmp sort path p))) [
      | inl e ↦ rw e (h, (hp, hs))
      | inr e ↦ rw e (hp, insert_path-All P sort path ps h hs)
    ]

behind :
    (path p : AddrPath) (ps : List AddrPath)
    → Precedes path p
    → All (λ q. ¬ Precedes q p) ps
    → All (λ q. ¬ Precedes q path) ps
behind path p [] h hs = tt
behind path p (q ∷ ps) h (hq, hs) = (λ k. hq (Precedes-trans q path p k h), behind path p ps h hs)

pub insert_path-IsSorted :
    (path : AddrPath) (ps : List AddrPath) → IsSorted ps → IsSorted (insert_path true path ps)
unfolding insert_path
insert_path-IsSorted path [] h = (tt, tt)
insert_path-IsSorted path (p ∷ ps) (hp, hs) =
    elim (Bool-cases (is_negative (path_cmp true path p))) [
      | inl e ↦ rw e ((Precedes-asym path p e, behind path p ps e hp), (hp, hs))
      | inr e ↦ rw e (
        insert_path-All (λ q. ¬ Precedes q p) true path ps (λ k. cc) hp,
        insert_path-IsSorted path ps hs,
      )
    ]

-- Inserting into a sorted path list keeps it sorted, and adds the new path and nothing else: no path
-- is lost or doubled.
pub insert_path_correct :
    (path : AddrPath) (ps : List AddrPath)
    → IsSorted ps
    → IsSorted (insert_path true path ps) × Perm (insert_path true path ps) (path ∷ ps)
insert_path_correct path ps h = (insert_path-IsSorted path ps h, insert_path-perm true path ps)

-- The paths already there keep their places: the new one stands between a part in which it precedes
-- no path and a part that is empty or begins with a path that it precedes.
pub insert_path_place :
    (sort : Bool) (path : AddrPath) (ps : List AddrPath)
    → (front back : List AddrPath) × (ps ≡ front ++ back)
      × (insert_path sort path ps ≡ front ++ (path ∷ back))
      × All (λ q. is_negative (path_cmp sort path q) ≡ false) front
      × Heads sort path back
unfolding insert_path
insert_path_place sort path [] = ([], [], refl, refl, tt, tt)
insert_path_place sort path (p ∷ ps) = elim (Bool-cases (is_negative (path_cmp sort path p))) [
  | inl e ↦ ([], p ∷ ps, refl, rw e, tt, e)
  | inr e ↦
      let (front, back, split, place, before, after) = insert_path_place sort path ps in
      (p ∷ front, back, ap (λ l. p ∷ l) split, rw e (ap (λ l. p ∷ l) place), (e, before), after)
]

-- Inserting into a sorted path list keeps it sorted, and adds the new path and nothing else. Whether
-- sorting is on or off, the paths already there keep their places: the new one stands between a part
-- in which it precedes no path and a part that is empty or begins with a path that it precedes.
pub insert_path_lem :
    (sort : Bool) (path : AddrPath) (ps : List AddrPath)
    → IsSorted ps
    → IsSorted (insert_path true path ps)
      × Perm (insert_path true path ps) (path ∷ ps)
      × ((front back : List AddrPath) × (ps ≡ front ++ back)
          × (insert_path sort path ps ≡ front ++ (path ∷ back))
          × All (λ q. is_negative (path_cmp sort path q) ≡ false) front
          × Heads sort path back)
insert_path_lem sort path ps h =
    (insert_path-IsSorted path ps h, insert_path-perm true path ps, insert_path_place sort path ps)
