-- ===== src/Asyncns/Rings.antt =====
-- The ring of compat/asyncns.c and the list of its blocks.
pub mod Links
use netresolve.Prelude.{ℕ, ◌≡◌, ◌≢◌, sym, ◌∙◌, List, [], ◌∷◌, ◌++◌, All, arith}
use netresolve.Asyncns.{Blocks, store}

store_self : (f : ℕ → ℕ) (q v : ℕ) → store f q v q ≡ v
unfolding store
store_self f q v = ground arith

store_other : (f : ℕ → ℕ) (q v p : ℕ) → p ≢ q → store f q v p ≡ f p
unfolding store
store_other f q v p h = ground arith

-- A block is none of a list; the blocks of a list differ.
abbrev pub IsNew : ℕ → List ℕ → Type 0
IsNew q xs = All (λ x. q ≢ x) xs

abbrev pub Distinct : List ℕ → Type 0
Distinct [] = Unit
Distinct (x ∷ xs) = IsNew x xs × Distinct xs

-- From block `a` the pointers lead through the list to `end`, and back.
abbrev pub Leads : (ℕ → ℕ) → ℕ → List ℕ → ℕ → Type 0
Leads next a [] end = next a ≡ end
Leads next a (x ∷ xs) end = (next a ≡ x) × Leads next x xs end

abbrev pub LeadsBack : (ℕ → ℕ) → ℕ → List ℕ → ℕ → Type 0
LeadsBack previous a [] end = previous end ≡ a
LeadsBack previous a (x ∷ xs) end = (previous x ≡ a) × LeadsBack previous x xs end

-- The ring holds a list of blocks, which differ from one another and from the head.
pub record Holds (b : Blocks) (xs : List ℕ) : Type 0 where
  pub forward : Leads b.next 0 xs 0
  pub backward : LeadsBack b.previous 0 xs 0
  pub distinct : Distinct (0 ∷ xs)

abbrev last : ℕ → List ℕ → ℕ
last a [] = a
last a (x ∷ xs) = last x xs

LeadsBack-last :
    (g : ℕ → ℕ) (a : ℕ) (xs : List ℕ) (end : ℕ) → LeadsBack g a xs end → g end ≡ last a xs
LeadsBack-last g a [] end h = h
LeadsBack-last g a (x ∷ xs) end h = LeadsBack-last g x xs end h.1

IsNew-last : (q a : ℕ) (xs : List ℕ) → IsNew q (a ∷ xs) → q ≢ last a xs
IsNew-last q a [] h = h.0
IsNew-last q a (x ∷ xs) h = IsNew-last q x xs h.1

-- a store to another block
pub Leads-store :
    (f : ℕ → ℕ) (q v a : ℕ) (xs : List ℕ) (end : ℕ)
    → IsNew q (a ∷ xs)
    → Leads f a xs end
    → Leads (store f q v) a xs end
Leads-store f q v a [] end new h = store_other f q v a (λ e. new.0 (sym e)) ∙ h
Leads-store f q v a (x ∷ xs) end new h =
    (store_other f q v a (λ e. new.0 (sym e)) ∙ h.0, Leads-store f q v x xs end new.1 h.1)

pub LeadsBack-store :
    (g : ℕ → ℕ) (q v a : ℕ) (xs : List ℕ) (end : ℕ)
    → IsNew q xs
    → q ≢ end
    → LeadsBack g a xs end
    → LeadsBack (store g q v) a xs end
LeadsBack-store g q v a [] end new other h = store_other g q v end (λ e. other (sym e)) ∙ h
LeadsBack-store g q v a (x ∷ xs) end new other h =
    (store_other g q v x (λ e. new.0 (sym e)) ∙ h.0, LeadsBack-store g q v x xs end new.1 other h.1)

-- A block behind the last one.
Leads-enqueue :
    (f : ℕ → ℕ) (q a : ℕ) (xs : List ℕ) (end : ℕ)
    → IsNew q (a ∷ xs)
    → Distinct (a ∷ xs)
    → f q ≡ end
    → Leads f a xs end
    → Leads (store f (last a xs) q) a (xs ++ q ∷ []) end
Leads-enqueue f q a [] end new d e h = (store_self f a q, store_other f a q q new.0 ∙ e)
Leads-enqueue f q a (x ∷ xs) end new d e h = (
  store_other f (last x xs) q a (IsNew-last a x xs d.0) ∙ h.0,
  Leads-enqueue f q x xs end new.1 d.1 e h.1,
)

LeadsBack-enqueue :
    (g : ℕ → ℕ) (q a : ℕ) (xs : List ℕ) (end : ℕ)
    → IsNew end xs
    → end ≢ q
    → g q ≡ last a xs
    → LeadsBack g a xs end
    → LeadsBack (store g end q) a (xs ++ q ∷ []) end
LeadsBack-enqueue g q a [] end new other e h =
    (store_other g end q q (λ k. other (sym k)) ∙ e, store_self g end q)
LeadsBack-enqueue g q a (x ∷ xs) end new other e h = (
  store_other g end q x (λ k. new.0 (sym k)) ∙ h.0,
  LeadsBack-enqueue g q x xs end new.1 other e h.1,
)

abbrev first_or : List ℕ → ℕ → ℕ
first_or [] end = end
first_or (z ∷ zs) end = z

-- the pointers of a block in the list
Leads-at :
    (f : ℕ → ℕ) (q a : ℕ) (ys zs : List ℕ) (end : ℕ)
    → Leads f a (ys ++ q ∷ zs) end
    → f q ≡ first_or zs end
Leads-at f q a [] [] end h = h.1
Leads-at f q a [] (z ∷ zs) end h = h.1.0
Leads-at f q a (y ∷ ys) zs end h = Leads-at f q y ys zs end h.1

LeadsBack-at :
    (g : ℕ → ℕ) (q a : ℕ) (ys zs : List ℕ) (end : ℕ)
    → LeadsBack g a (ys ++ q ∷ zs) end
    → g q ≡ last a ys
LeadsBack-at g q a [] zs end h = h.0
LeadsBack-at g q a (y ∷ ys) zs end h = LeadsBack-at g q y ys zs end h.1

IsNew-append : (q : ℕ) (xs ys : List ℕ) → IsNew q (xs ++ ys) → IsNew q xs × IsNew q ys
IsNew-append q [] ys h = (tt, h)
IsNew-append q (x ∷ xs) ys h = let (left, right) = IsNew-append q xs ys h.1 in ((h.0, left), right)

IsNew-first : (q : ℕ) (zs : List ℕ) (end : ℕ) → IsNew q zs → q ≢ end → q ≢ first_or zs end
IsNew-first q [] end h other = other
IsNew-first q (z ∷ zs) end h other = h.0
