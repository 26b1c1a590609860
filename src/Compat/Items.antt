-- ===== src/Compat/Items.antt =====
-- The loops of lib/compat.c over the paths of a response, by their list.
use mathlib.Core.List.{Memᴰ, Mem, mem-cons_self, mem-cons_of_mem}
use mathlib.Core.List.Memᴰ
use mathlib.Core.Logic.{∥∥₁_map}
use netresolve.Prelude.{
  ◌>>=◌, ℕ, ℤ, suc, pos, negsuc, ◌+◌, ◌≡◌, refl, sym, ap, ◌∙◌, inl, inr, Bool, true, false, Option,
  some, List, [], ◌∷◌, map, foldl, arith, All, Option-cases, get_elem?, length, is_nonneg,
  if◌then◌else◌, ltb_ℤ,
}
use netresolve.Types.{AddrPath}
use netresolve.Query.{Query}
use netresolve.Results.{AddrInfo, HostEnt}
use netresolve.Start.{get_node_info, get_service_info, get_aux_info}
use netresolve.Compat.{addrinfo_of, get_sockaddr, min_ttl, addrinfo_from}
use netresolve.Compat.Entries.{take_address, hostent_from}

-- A part of the paths, from the one of number `i` on.
abbrev pub From : ℕ → List AddrPath → List AddrPath → Type 0
From i ps all = (j : ℕ) → get_elem? all (i + j) ≡ get_elem? ps j

pub From-head :
    (i : ℕ) (p : AddrPath) (ps all : List AddrPath) → From i (p ∷ ps) all → get_elem? all i ≡ some p
From-head i p ps all h = let same : i + 0 ≡ i = omega arith in ap (get_elem? all) (sym same) ∙ h 0

pub From-tail :
    (i : ℕ) (p : AddrPath) (ps all : List AddrPath) → From i (p ∷ ps) all → From (i + 1) ps all
From-tail i p ps all h j =
    let same : i + 1 + j ≡ i + suc j = omega arith in ap (get_elem? all) same ∙ h (suc j)

pub From-all : (all : List AddrPath) → From 0 all all
From-all all j = let same : 0 + j ≡ j = omega arith in ap (get_elem? all) same

-- the ttl that `netresolve_query_get_aux_info` stores
abbrev pub shown_ttl : ℤ → AddrPath → ℤ
shown_ttl clamp p = if is_nonneg clamp then clamp else p.ttl

abbrev pub shown_ttls : Query → List ℤ
shown_ttls q = map (shown_ttl q.request.clamp_ttl) q.response.paths

abbrev pub sockaddr_of : AddrPath → Option AddrInfo
sockaddr_of p =
    addrinfo_of p.node.family p.service.socktype p.service.protocol p.node.address p.node.ifindex
      p.service.port

get_sockaddr-at :
    (q : Query) (i : ℕ) (p : AddrPath)
    → get_elem? q.response.paths i ≡ some p
    → get_sockaddr q i
      ≡ some (record { address = sockaddr_of p; ttl = shown_ttl q.request.clamp_ttl p })
unfolding get_sockaddr get_node_info get_service_info get_aux_info
get_sockaddr-at q i p e = rw (e, get_node_info, get_service_info, get_aux_info) refl

-- The paths as socket addresses, if all can be.
abbrev pub addresses : List AddrPath → Option (List AddrInfo)
addresses [] = some []
addresses (p ∷ ps) = do item ← sockaddr_of p; items ← addresses ps; some (item ∷ items)

abbrev with_ttl : ℤ → List AddrInfo → Option (List AddrInfo × ℤ)
with_ttl ttl items = some (items, ttl)

pub addrinfo_from-addresses :
    (q : Query) (i : ℕ) (least : ℤ) (ps : List AddrPath)
    → From i ps q.response.paths
    → addrinfo_from q (length ps) i least
      ≡ (addresses ps >>= with_ttl (foldl min_ttl least (map (shown_ttl q.request.clamp_ttl) ps)))
unfolding addrinfo_from
addrinfo_from-addresses q i least [] h = refl
addrinfo_from-addresses q i least (p ∷ ps) h =
    let at_i = get_sockaddr-at q i p (From-head i p ps q.response.paths h) in
    let rest =
      addrinfo_from-addresses q (i + 1) (min_ttl least (shown_ttl q.request.clamp_ttl p)) ps
        (From-tail i p ps q.response.paths h) in
    elim (Option-cases (sockaddr_of p)) [
      | inl e ↦ rw (at_i, e) refl
      | inr (item, e) ↦ elim (Option-cases (addresses ps)) [
        | inl k ↦ rw (at_i, e, rest, k) refl
        | inr (items, k) ↦ rw (at_i, e, rest, k) refl
      ]
    ]

-- The round of `get_hostent` for one path.
abbrev pub take_path : HostEnt → AddrPath → HostEnt
take_path he p = take_address p.node.family p.node.address he

pub hostent_from-foldl :
    (q : Query) (i : ℕ) (he : HostEnt) (least : ℤ) (ps : List AddrPath)
    → From i ps q.response.paths
    → hostent_from q (length ps) i he least
      ≡ some (foldl take_path he ps, foldl min_ttl least (map (shown_ttl q.request.clamp_ttl) ps))
unfolding hostent_from get_node_info get_aux_info
hostent_from-foldl q i he least [] h = refl
hostent_from-foldl q i he least (p ∷ ps) h =
    let at_i = From-head i p ps q.response.paths h in
    rw (at_i, hostent_from, get_node_info, get_aux_info)
      (hostent_from-foldl q (i + 1) (take_path he p)
        (min_ttl least (shown_ttl q.request.clamp_ttl p)) ps (From-tail i p ps q.response.paths h))

below_not_less : (a b c : ℤ) → ltb_ℤ a c ≡ false → ltb_ℤ a b ≡ true → ltb_ℤ b c ≡ false
below_not_less (pos a) (pos b) (pos c) h k = ground arith
below_not_less (pos a) (pos b) (negsuc c) h k = ground arith
below_not_less (pos a) (negsuc b) c h k = cc
below_not_less (negsuc a) b (pos c) h k = cc
below_not_less (negsuc a) (pos b) (negsuc c) h k = ground arith
below_not_less (negsuc a) (negsuc b) (negsuc c) h k = ground arith

not_less_trans : (a b c : ℤ) → ltb_ℤ b c ≡ false → ltb_ℤ a b ≡ false → ltb_ℤ a c ≡ false
not_less_trans (pos a) (pos b) (pos c) h k = ground arith
not_less_trans (pos a) b (negsuc c) h k = ground arith
not_less_trans (pos a) (negsuc b) (pos c) h k = cc
not_less_trans (negsuc a) (pos b) c h k = cc
not_less_trans (negsuc a) (negsuc b) (pos c) h k = cc
not_less_trans (negsuc a) (negsuc b) (negsuc c) h k = ground arith

not_less_refl : (a : ℤ) → ltb_ℤ a a ≡ false
not_less_refl (pos a) = ground arith
not_less_refl (negsuc a) = ground arith

mem-second : (r x t : ℤ) (ts : List ℤ) → Mem r (x ∷ ts) → Mem r (x ∷ t ∷ ts)
mem-second r x t ts h =
    ∥∥₁_map {B = Memᴰ r (x ∷ t ∷ ts)} h
      (λ d. elim (Memᴰ.cases_cons d) [ inl e ↦ Memᴰ.head e | inr m ↦ Memᴰ.tail (Memᴰ.tail m) ])

-- `least` is one of a list, and none of the list is less.
abbrev pub IsLeast : List ℤ → ℤ → Type 0
IsLeast ts least = All (λ t. ltb_ℤ t least ≡ false) ts × Mem least ts

IsLeast-step :
    (b : Bool) (first t r : ℤ) (ts : List ℤ)
    → ltb_ℤ t first ≡ b
    → IsLeast ((if b then t else first) ∷ ts) r
    → IsLeast (first ∷ t ∷ ts) r
IsLeast-step true first t r ts e ((low, all), has) =
    ((below_not_less t first r low e, (low, all)), mem-cons_of_mem first has)
IsLeast-step false first t r ts e ((low, all), has) =
    ((low, (not_less_trans t first r low e, all)), mem-second r first t ts has)

pub foldl-IsLeast : (first : ℤ) (ts : List ℤ) → IsLeast (first ∷ ts) (foldl min_ttl first ts)
foldl-IsLeast first [] = ((not_less_refl first, tt), mem-cons_self)
foldl-IsLeast first (t ∷ ts) =
    IsLeast-step (ltb_ℤ t first) first t (foldl min_ttl (min_ttl first t) ts) ts refl
      (foldl-IsLeast (min_ttl first t) ts)
