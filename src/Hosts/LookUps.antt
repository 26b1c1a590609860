-- ===== src/Hosts/LookUps.antt =====
-- The two look-ups of backends/hosts.c in one list.
use netresolve.Prelude.{
  ℕ, ℤ, ◌≡◌, ap, ◌∙◌, ◌↔◌, ◌⊎◌, inl, inr, true, Bool-cases, ◌≢◌, none, some, List, [], ◌∷◌, ◌++◌,
  CString, str_eq, str_eq_iff, take, arith,
}
use netresolve.Types.{Request}
use netresolve.Query.{Call}
use netresolve.Output.{get_nodename}
use netresolve.Backends.{add_node}
use netresolve.Hosts.{
  HostsItem, address_size, answer_calls, named_calls, forward_calls, hosts_forward, is_item,
  address_calls, hosts_reverse,
}

-- A call is among those that are made.
abbrev pub Among : Call → List Call → Type 0
Among c [] = ⊥
Among c (d ∷ ds) = (c ≡ d) ⊎ Among c ds

-- Adding a path, or the name of an address.
abbrev IsAnswer : Call → Type 0
IsAnswer c = (c ≢ Call.failed) × (c ≢ Call.finished) × (c ≢ Call.set_secure)

Among-left : (c : Call) (cs ds : List Call) → Among c cs → Among c (cs ++ ds)
Among-left c [] ds h = elim h [ ]
Among-left c (d ∷ cs) ds (inl e) = inl e
Among-left c (d ∷ cs) ds (inr h) = inr (Among-left c cs ds h)

Among-cases : (c : Call) (cs ds : List Call) → Among c (cs ++ ds) → Among c cs ⊎ Among c ds
Among-cases c [] ds h = inr h
Among-cases c (d ∷ cs) ds (inl e) = inl (inl e)
Among-cases c (d ∷ cs) ds (inr h) = elim (Among-cases c cs ds h) [
  | inl k ↦ inl (inr k)
  | inr k ↦ inr k
]

to_answer : (c : Call) (cs : List Call) → Among c cs → Among c (answer_calls cs)
unfolding answer_calls
to_answer c [] h = elim h [ ]
to_answer c (d ∷ cs) h = Among-left c (d ∷ cs) _ h

from_answer : (c : Call) (cs : List Call) → IsAnswer c → Among c (answer_calls cs) → Among c cs
unfolding answer_calls
from_answer c [] (n, _, _) (inl e) = absurd (n e)
from_answer c [] new (inr h) = elim h [ ]
from_answer c (d ∷ cs) (n, m, k) h = elim (Among-cases c (d ∷ cs) _ h) [
  | inl there ↦ there
  | inr (inl e) ↦ absurd (k e)
  | inr (inr (inl e)) ↦ absurd (m e)
  | inr (inr (inr nowhere)) ↦ elim nowhere [ ]
]

-- An address of a family that is that of a request, up to the size of the family, is added.
abbrev pub Finds : ℕ → List ℕ → List Call → Type 0
Finds family address calls =
    (a : List ℕ) × (x : ℤ) × (take (address_size family) address ≡ take (address_size family) a)
    × Among (add_node family a x) calls

abbrev Names : CString → List Call → Type 0
Names node calls = Among (Call.add_name_info (some node) none) calls

-- What an item adds to both look-ups.
item_matches :
    (family : ℕ) (address : List ℕ) (i : HostsItem)
    → is_item family address i ≡ true
    → (family ≡ i.family)
      × (take (address_size family) address ≡ take (address_size family) i.address)
item_matches family address i h =
    let n = address_size family in
    (ground arith, ground (arith, str_eq_iff (take n address) (take n i.address)))

matches_item :
    (family : ℕ) (address : List ℕ) (i : HostsItem)
    → family ≡ i.family
    → take (address_size family) address ≡ take (address_size family) i.address
    → is_item family address i ≡ true
matches_item family address i e k =
    let n = address_size family in ground (arith, str_eq_iff (take n address) (take n i.address))

module _ (node : CString) (family : ℕ) (address : List ℕ) where
  Finds-behind :
      (i : HostsItem) (is : List HostsItem)
      → Finds family address (named_calls node is)
      → Finds family address (named_calls node (i ∷ is))
  unfolding named_calls
  Finds-behind i is (a, x, e, h) = elim (Bool-cases (str_eq node i.name)) [
    | inl k ↦ rw k (a, x, e, inr h)
    | inr k ↦ rw k (a, x, e, h)
  ]

  Finds-here :
      (i : HostsItem) (is : List HostsItem)
      → node ≡ i.name
      → is_item family address i ≡ true
      → Finds family address (named_calls node (i ∷ is))
  unfolding named_calls
  Finds-here i is same m =
      let (f, e) = item_matches family address i m in
      rw ((str_eq_iff node i.name).1 same)
        (i.address, i.ifindex, e, inl (ap (λ n. add_node n i.address i.ifindex) f))

  reverse-forward :
      (items : List HostsItem)
      → Names node (address_calls family address items)
      → Finds family address (named_calls node items)
  unfolding address_calls
  reverse-forward [] h = elim h [ ]
  reverse-forward (i ∷ is) h = elim (Bool-cases (is_item family address i)) [
    | inl m ↦ elim (rw m at h) [
      | inl e ↦ Finds-here i is (cc) m
      | inr k ↦ Finds-behind i is (reverse-forward is k)
    ]
    | inr m ↦ Finds-behind i is (reverse-forward is (rw m at h))
  ]

  Names-behind :
      (i : HostsItem) (is : List HostsItem)
      → Names node (address_calls family address is)
      → Names node (address_calls family address (i ∷ is))
  unfolding address_calls
  Names-behind i is h = elim (Bool-cases (is_item family address i)) [
    | inl m ↦ rw m (inr h)
    | inr m ↦ rw m h
  ]

  Names-here :
      (i : HostsItem) (is : List HostsItem)
      → node ≡ i.name
      → is_item family address i ≡ true
      → Names node (address_calls family address (i ∷ is))
  unfolding address_calls
  Names-here i is same m = rw m (inl (ap (λ name. Call.add_name_info (some name) none) same))

  forward-reverse :
      (items : List HostsItem)
      → Finds family address (named_calls node items)
      → Names node (address_calls family address items)
  unfolding named_calls
  forward-reverse [] (a, x, e, h) = elim h [ ]
  forward-reverse (i ∷ is) (a, x, e, h) = elim (Bool-cases (str_eq node i.name)) [
    | inl k ↦ elim (rw k at h) [
      | inl same ↦
          let size = address_size family in
          let f : family ≡ i.family = cc in
          let same_address : a ≡ i.address = cc in
          Names-here i is ((str_eq_iff node i.name).0 k)
            (matches_item family address i f (e ∙ ap (take size) same_address))
      | inr there ↦ Names-behind i is (forward-reverse is (a, x, e, there))
    ]
    | inr k ↦ Names-behind i is (forward-reverse is (a, x, e, rw k at h))
  ]

-- A reverse look-up for a family and an address gives a name just if the forward look-up of that name
-- in the same list gives that address, up to the size of the family, with that family.
pub hosts_reverse-hosts_forward :
    (items : List HostsItem) (r r' : Request) (node : CString)
    → get_nodename r ≡ some node
    → Among (Call.add_name_info (some node) none) (hosts_reverse items r')
      ↔ Finds r'.family r'.address (hosts_forward items r)
unfolding hosts_reverse hosts_forward forward_calls
hosts_reverse-hosts_forward items r r' node e = rw e (
  λ h.
      let (a, x, k, m) =
        reverse-forward node r'.family r'.address items
          (from_answer _ _ ((λ n. cc), (λ n. cc), (λ n. cc)) h) in
      (a, x, k, to_answer _ _ m),
  λ (a, x, k, m). to_answer _ _ (
      forward-reverse node r'.family r'.address items
        (a, x, k, from_answer _ _ ((λ n. cc), (λ n. cc), (λ n. cc)) m)),
)
