-- ===== src/Start/Getters.antt =====
-- The getters for the paths of a response (lib/query.c).
use netresolve.Prelude.{
  Option, ℕ, suc, zero, ◌<◌, ◌≤◌, ◌≡◌, refl, ◌⊎◌, inl, inr, ℤ, Bool, true, false, none, some, List,
  [], ◌∷◌, arith, All, Option-cases, is_some, length, get_elem?,
}
use mathlib.Core.Path.{subst}
use netresolve.Types.{AddrPath}
use netresolve.Types.Af
use netresolve.Query.{Query, Env}
use netresolve.Machine.Answers.{IsAnswer, IsWanted}
use netresolve.Start.{get_count, get_node_info, get_service_info, get_aux_info}

get_elem?-inside :
    (ps : List AddrPath) (i : ℕ) → i < length ps → (p : AddrPath) × (get_elem? ps i ≡ some p)
get_elem?-inside [] i h = absurd (omega arith)
get_elem?-inside (p ∷ ps) zero h = (p, refl)
get_elem?-inside (p ∷ ps) (suc i) h = get_elem?-inside ps i (omega arith)

get_elem?-outside : (ps : List AddrPath) (i : ℕ) → length ps ≤ i → get_elem? ps i ≡ none
get_elem?-outside [] i h = refl
get_elem?-outside (p ∷ ps) zero h = absurd (omega arith)
get_elem?-outside (p ∷ ps) (suc i) h = get_elem?-outside ps i (omega arith)

get_elem?-All :
    (P : AddrPath → Type 0) (ps : List AddrPath) (i : ℕ) (p : AddrPath)
    → All P ps
    → get_elem? ps i ≡ some p
    → P p
get_elem?-All P [] i p h e = cc
get_elem?-All P (x ∷ ps) zero p (hx, h) e = let same : x ≡ p = cc in subst P same hx
get_elem?-All P (x ∷ ps) (suc i) p (hx, h) e = get_elem?-All P ps i p h e

-- Whether each getter for a path returns.
abbrev pub Returns : Bool → Query → ℕ → Type 0
Returns b q i =
    (is_some (get_node_info q i) ≡ b)
    × (is_some (get_service_info q i) ≡ b)
    × (is_some (get_aux_info q i) ≡ b)

-- The getters for a path return for every index below the count, and for no other.
pub get_count-Returns :
    (q : Query) (i : ℕ)
    → (i < get_count q → Returns true q i) × (get_count q ≤ i → Returns false q i)
unfolding get_count get_node_info get_service_info get_aux_info
get_count-Returns q i = (
  λ h.
      let (p, e) = get_elem?-inside q.response.paths i h in
      (rw (e, get_node_info) refl, rw (e, get_service_info) refl, rw (e, get_aux_info) refl),
  λ h.
      let e = get_elem?-outside q.response.paths i h in
      (rw (e, get_node_info) refl, rw (e, get_service_info) refl, rw (e, get_aux_info) refl),
)

-- A node that is reported for a query whose response is in order is of the family that the request is
-- limited to, if it is limited to one.
pub get_node_info-IsWanted :
    (env : Env) (q : Query) (i family : ℕ) (address : List ℕ) (ifindex : ℤ)
    → IsAnswer env q
    → get_node_info q i ≡ some (family, address, ifindex)
    → (q.request.family ≡ Af.unspec) ⊎ (q.request.family ≡ family)
unfolding get_node_info
get_node_info-IsWanted env q i family address ifindex h e =
    elim (Option-cases (get_elem? q.response.paths i)) [
      | inl n ↦ cc (rw (n, get_node_info) at e)
      | inr (p, n) ↦
          let wanted = get_elem?-All (IsWanted q.request.family) q.response.paths i p h.0 n in
          let same : ◌≡◌ {A = Option (ℕ × List ℕ × ℤ)}
              (some (p.node.family, p.node.address, p.node.ifindex))
              (some (family, address, ifindex)) =
            rw (n, get_node_info) at e in
          let equal : p.node.family ≡ family = cc in rw⁻¹ equal wanted
    ]
