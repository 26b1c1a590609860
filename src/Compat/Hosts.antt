-- ===== src/Compat/Hosts.antt =====
-- The host entry that lib/compat.c makes of a query: the addresses of one family.
use mathlib.Core.List.{append-nil, append_assoc}
use netresolve.Prelude.{
  ℕ, ℤ, ◌≡◌, refl, ap, ◌∙◌, inl, inr, ◌⊎◌, Bool, true, false, ◌&&◌, Option, some, List, [], ◌∷◌,
  ◌++◌, CString, foldl, arith, Bool-cases, take, ◌==◌, ==_iff, if◌then◌else◌,
}
use netresolve.Types.{AddrPath}
use netresolve.Query.{Query}
use netresolve.Results.{HostEnt}
use netresolve.Start.{get_count, get_node_name}
use netresolve.Compat.{min_ttl, int32_max}
use netresolve.Compat.Entries.{is_ip, address_length, take_address, get_hostent}
use netresolve.Compat.Items.{
  From-all, shown_ttls, take_path, hostent_from-foldl, foldl-IsLeast, IsLeast,
}

-- The family of the first path to an Internet address, or zero.
abbrev pub first_family : List AddrPath → ℕ
first_family [] = 0
first_family (p ∷ ps) = if is_ip p.node.family then p.node.family else first_family ps

abbrev pub has_family : ℕ → AddrPath → Bool
has_family family p = is_ip p.node.family && family == p.node.family

-- The addresses of a family, in the order of the paths.
abbrev pub family_addresses : ℕ → List AddrPath → List (List ℕ)
family_addresses family [] = []
family_addresses family (p ∷ ps) =
    if has_family family p
    then take (address_length family) p.node.address ∷ family_addresses family ps
    else family_addresses family ps

abbrev entry : Option CString → ℕ → List (List ℕ) → HostEnt
entry name family addresses = record { name = name; family = family; addresses = addresses }

-- An address of the family of the entry, or the first of all.
take_address-taken :
    (name : Option CString) (family f g : ℕ) (a : List ℕ) (seen : List (List ℕ))
    → is_ip family ≡ true
    → g ≡ family
    → (f ≡ 0) ⊎ (f ≡ family)
    → take_address family a (entry name f seen)
      ≡ entry name g (seen ++ take (address_length g) a ∷ [])
unfolding take_address
take_address-taken name family f g a seen e h (inl k) = rw (e, k, h, take_address) refl
take_address-taken name family f g a seen e h (inr k) =
    let same : (family == family) ≡ true = ground arith in
    elim (Bool-cases (family == 0)) [
      | inl z ↦ rw (k, h, e, z, take_address) refl
      | inr z ↦ rw (k, h, e, z, same, take_address) refl
    ]

-- An address that is not one of the Internet, or of the other family.
take_address-skipped :
    (name : Option CString) (family f : ℕ) (a : List ℕ) (seen : List (List ℕ))
    → (is_ip family ≡ false) ⊎ (((f == 0) ≡ false) × ((f == family) ≡ false))
    → take_address family a (entry name f seen) ≡ entry name f seen
unfolding take_address
take_address-skipped name family f a seen (inl e) = rw (e, take_address) refl
take_address-skipped name family f a seen (inr (e, h)) = elim (Bool-cases (is_ip family)) [
  | inl k ↦ rw (k, e, h, take_address) refl
  | inr k ↦ rw (k, take_address) refl
]

ip-nonzero : (f : ℕ) → is_ip f ≡ true → (f == 0) ≡ false
ip-nonzero f h = ground arith

-- Once a family is chosen, the addresses of that family follow.
foldl-chosen :
    (name : Option CString) (f : ℕ) (seen : List (List ℕ)) (ps : List AddrPath)
    → (f == 0) ≡ false
    → foldl take_path (entry name f seen) ps ≡ entry name f (seen ++ family_addresses f ps)
foldl-chosen name f seen [] h = rw (append-nil seen) refl
foldl-chosen name f seen (p ∷ ps) h =
    let behind = foldl-chosen name f seen ps h in
    let a = take (address_length f) p.node.address in
    elim (Bool-cases (is_ip p.node.family)) [
      | inr e ↦
          let step = take_address-skipped name p.node.family f p.node.address seen (inl e) in
          rw (step, e) behind
      | inl e ↦ elim (Bool-cases (f == p.node.family)) [
        | inl k ↦
            let (to, _) = ==_iff f p.node.family in
            let step =
              take_address-taken name p.node.family f f p.node.address seen e (to k) (inr (to k)) in
            rw (step, e, k)
              (foldl-chosen name f (seen ++ a ∷ []) ps h
                ∙ ap (entry name f) (append_assoc seen (a ∷ []) (family_addresses f ps)))
        | inr k ↦
            let step = take_address-skipped name p.node.family f p.node.address seen (inr (h, k)) in
            rw (step, e, k) behind
      ]
    ]

foldl-first :
    (name : Option CString) (g : ℕ) (ps : List AddrPath)
    → g ≡ first_family ps
    → foldl take_path (entry name 0 []) ps ≡ entry name g (family_addresses g ps)
foldl-first name g [] h = rw h refl
foldl-first name g (p ∷ ps) h = elim (Bool-cases (is_ip p.node.family)) [
  | inl e ↦
      let chosen : g ≡ p.node.family = rw e at h in
      let step = take_address-taken name p.node.family 0 g p.node.address [] e chosen (inl refl) in
      let same : (g == p.node.family) ≡ true = ground arith in
      rw (step, e, same)
        (foldl-chosen name g (take (address_length g) p.node.address ∷ []) ps
          (ip-nonzero g (rw chosen e)))
  | inr e ↦
      let step = take_address-skipped name p.node.family 0 p.node.address [] (inl e) in
      rw (step, e) (foldl-first name g ps (rw e at h))
]

-- `get_hostent` always returns: the entry has the family of the first path to an Internet address, or
-- none, and the addresses of just that family, in the order of the paths; the ttl is the least of those
-- shown for all the paths and of INT32_MAX.
pub get_hostent-family_addresses :
    (q : Query)
    → (he : HostEnt) × (ttl : ℤ) × (get_hostent q ≡ some (he, ttl))
      × (he.name ≡ get_node_name q)
      × (he.family ≡ first_family q.response.paths)
      × (he.addresses ≡ family_addresses (first_family q.response.paths) q.response.paths)
      × IsLeast (int32_max ∷ shown_ttls q) ttl
unfolding get_hostent get_count
get_hostent-family_addresses q =
    let ps = q.response.paths in
    let loop = hostent_from-foldl q 0 (entry (get_node_name q) 0 []) int32_max ps (From-all ps) in
    let f = first_family ps in
    (
      entry (get_node_name q) f (family_addresses f ps),
      foldl min_ttl int32_max (shown_ttls q),
      rw (loop, foldl-first (get_node_name q) f ps refl) refl,
      refl,
      refl,
      refl,
      foldl-IsLeast int32_max (shown_ttls q),
    )
