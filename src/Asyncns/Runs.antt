-- ===== src/Asyncns/Runs.antt =====
-- A session of compat/asyncns.c and its list of queries.
use mathlib.Core.Path.{subst}
use netresolve.Prelude.{
  ℕ, suc, ◌≡◌, ◌≢◌, refl, sym, ap, ◌∙◌, Bool, true, false, Option, none, some, List, [], ◌∷◌, ◌++◌,
  map, length, ◌==◌, arith, if◌then◌else◌, Bool-cases, inl, inr,
}
use netresolve.Asyncns.{
  Blocks, store, enqueue, link, new_block, dequeue, callback, add_query, remove_query, cancel,
  find_done, count_from, one_more, cancel_all, new_session,
}
use netresolve.Asyncns.Rings.{IsNew, Leads, LeadsBack, Leads-store, LeadsBack-store, Holds}
use netresolve.Asyncns.Rings.Links.{enqueue-Holds, dequeue-Holds}

-- What happens to the blocks of a session.
pub data Happening : Type 0 where
  allocated : ℕ → Happening
  called : ℕ → Happening
  added : ℕ → ℕ → Happening

-- Whether the callback of a block came since the block was allocated; the last happening comes first.
abbrev pub was_called : ℕ → List Happening → Bool
was_called q [] = false
was_called q (Happening.allocated p ∷ hs) = if q == p then false else was_called q hs
was_called q (Happening.called p ∷ hs) = if q == p then true else was_called q hs
was_called q (Happening.added p query ∷ hs) = was_called q hs

-- The query with which a block was added since it was allocated; 0 is NULL.
abbrev pub query_of : ℕ → List Happening → ℕ
query_of q [] = 0
query_of q (Happening.allocated p ∷ hs) = if q == p then 0 else query_of q hs
query_of q (Happening.called p ∷ hs) = query_of q hs
query_of q (Happening.added p query ∷ hs) = if q == p then query else query_of q hs

-- The sessions, each with the blocks that it has in order and with what has happened, that are reached
-- from a new one by allocating a block, by adding one with its query or freeing one that has none, by the
-- callback of a block at any time, and by taking out or cancelling one of the list.
pub data Reached : Blocks → List ℕ → List Happening → Type 0 where
  begun : Reached new_session [] []
  allocated :
      {b : Blocks} {xs : List ℕ} {hs : List Happening}
      → Reached b xs hs
      → (q : ℕ) → IsNew q (0 ∷ xs)
      → Reached (new_block q b) xs (Happening.allocated q ∷ hs)
  added :
      {b : Blocks} {xs : List ℕ} {hs : List Happening}
      → Reached b xs hs
      → (q query : ℕ) → IsNew q (0 ∷ xs)
      → Reached (add_query q (some query) b).1 (xs ++ q ∷ []) (Happening.added q query ∷ hs)
  refused :
      {b : Blocks} {xs : List ℕ} {hs : List Happening}
      → Reached b xs hs
      → (q : ℕ) → IsNew q (0 ∷ xs)
      → Reached (add_query q none b).1 xs hs
  called :
      {b : Blocks} {xs : List ℕ} {hs : List Happening}
      → Reached b xs hs
      → (q : ℕ) → Reached (callback q b) xs (Happening.called q ∷ hs)
  removed :
      {b : Blocks} {xs : List ℕ} {hs : List Happening}
      → Reached b xs hs
      → (q : ℕ) (ys zs us : List ℕ) → xs ≡ ys ++ q ∷ zs
      → us ≡ ys ++ zs
      → Reached (remove_query q b).1 us hs
  cancelled :
      {b : Blocks} {xs : List ℕ} {hs : List Happening}
      → Reached b xs hs
      → (q : ℕ) (ys zs us : List ℕ) → xs ≡ ys ++ q ∷ zs
      → us ≡ ys ++ zs
      → Reached (cancel q b) us hs

-- the pointers alone say what a ring holds
same-Holds :
    (b c : Blocks) (xs : List ℕ)
    → b.next ≡ c.next
    → b.previous ≡ c.previous
    → Holds b xs
    → Holds c xs
same-Holds b c xs e k h = record {
  forward = subst (λ f. Leads f 0 xs 0) e h.forward;
  backward = subst (λ g. LeadsBack g 0 xs 0) k h.backward;
  distinct = h.distinct;
}

cancel-Holds :
    (b : Blocks) (q : ℕ) (ys zs : List ℕ) → Holds b (ys ++ q ∷ zs) → Holds (cancel q b) (ys ++ zs)
unfolding cancel dequeue
cancel-Holds b q ys zs h =
    same-Holds (dequeue q b) (cancel q b) (ys ++ zs) refl refl (dequeue-Holds b q ys zs h)

remove_query-Holds :
    (b : Blocks) (q : ℕ) (ys zs : List ℕ)
    → Holds b (ys ++ q ∷ zs)
    → Holds (remove_query q b).1 (ys ++ zs)
unfolding remove_query dequeue
remove_query-Holds b q ys zs h =
    same-Holds (dequeue q b) (remove_query q b).1 (ys ++ zs) refl refl (dequeue-Holds b q ys zs h)

add_query-Holds :
    (b : Blocks) (q query : ℕ) (xs : List ℕ)
    → IsNew q (0 ∷ xs)
    → Holds b xs
    → Holds (add_query q (some query) b).1 (xs ++ q ∷ [])
unfolding add_query
add_query-Holds b q query xs new h =
    enqueue-Holds _ q xs new
      (record { forward = h.forward; backward = h.backward; distinct = h.distinct })

new_block-Holds :
    (b : Blocks) (q : ℕ) (xs : List ℕ) → IsNew q (0 ∷ xs) → Holds b xs → Holds (new_block q b) xs
unfolding new_block
new_block-Holds b q xs new h = record {
  forward = Leads-store b.next q 0 0 xs 0 new h.forward;
  backward = LeadsBack-store b.previous q 0 0 xs 0 new.1 new.0 h.backward;
  distinct = h.distinct;
}

Reached-Holds : {b : Blocks} {xs : List ℕ} {hs : List Happening} → Reached b xs hs → Holds b xs
unfolding new_session callback add_query
Reached-Holds begun = record { forward = refl; backward = refl; distinct = (tt, tt) }
Reached-Holds (allocated {b} {xs} r q new) = new_block-Holds b q xs new (Reached-Holds r)
Reached-Holds (added {b} {xs} r q query new) = add_query-Holds b q query xs new (Reached-Holds r)
Reached-Holds (refused {b} {xs} r q new) =
    let h = Reached-Holds r in
    record { forward = h.forward; backward = h.backward; distinct = h.distinct }
Reached-Holds (called {b} {xs} r q) =
    let h = Reached-Holds r in
    record { forward = h.forward; backward = h.backward; distinct = h.distinct }
Reached-Holds (removed {b} {xs} r q ys zs us e k) =
    subst (Holds (remove_query q b).1) (sym k)
      (remove_query-Holds b q ys zs (subst (Holds b) e (Reached-Holds r)))
Reached-Holds (cancelled {b} {xs} r q ys zs us e k) =
    subst (Holds (cancel q b)) (sym k)
      (cancel-Holds b q ys zs (subst (Holds b) e (Reached-Holds r)))

-- The fields of a block are what has happened to it.
abbrev Matches : Blocks → List Happening → Type 0
Matches b hs = (q : ℕ) → (b.done q ≡ was_called q hs) × (b.query q ≡ query_of q hs)

Reached-Matches : {b : Blocks} {xs : List ℕ} {hs : List Happening} → Reached b xs hs → Matches b hs
unfolding new_session new_block callback add_query enqueue link dequeue remove_query cancel store
Reached-Matches begun q = (refl, refl)
Reached-Matches (allocated r p new) q =
    let (done, query) = Reached-Matches r q in
    (ap (λ d. if q == p then false else d) done, ap (λ n. if q == p then 0 else n) query)
Reached-Matches (added r p n new) q =
    let (done, query) = Reached-Matches r q in (done, ap (λ m. if q == p then n else m) query)
Reached-Matches (refused r p new) q = Reached-Matches r q
Reached-Matches (called r p) q =
    let (done, query) = Reached-Matches r q in (ap (λ d. if q == p then true else d) done, query)
Reached-Matches (removed r p ys zs us e k) q = Reached-Matches r q
Reached-Matches (cancelled r p ys zs us e k) q = Reached-Matches r q

nonzero : (x : ℕ) → 0 ≢ x → (x == 0) ≡ false
nonzero x h = ground arith

-- `asyncns_getnqueries` on the list
count_from-length :
    (b : Blocks) (a : ℕ) (xs : List ℕ)
    → IsNew 0 xs
    → Leads b.next a xs 0
    → count_from (suc (length xs)) (b.next a) b ≡ some (length xs)
count_from-length b a [] new h =
    subst (λ q. count_from 1 q b ≡ some 0) (sym h) (unfold count_from in refl)
count_from-length b a (x ∷ xs) new h =
    subst (λ q. count_from (suc (suc (length xs))) q b ≡ some (suc (length xs))) (sym h.0)
      (counted x (length xs) (nonzero x new.0) (count_from-length b x xs new.1 h.1))
  where
    counted :
        (x n : ℕ)
        → (x == 0) ≡ false
        → count_from (suc n) (b.next x) b ≡ some n
        → count_from (suc (suc n)) x b ≡ some (suc n)
    counted x n e k = unfold count_from in rw e (ap one_more k)

-- The first block of a list that is done.
abbrev pub first_done : (ℕ → Bool) → List ℕ → Option ℕ
first_done done [] = none
first_done done (x ∷ xs) = let rest = first_done done xs in if done x then some x else rest

found_here :
    (b : Blocks) (x n : ℕ) (r : Option ℕ)
    → (x == 0) ≡ false
    → find_done (suc n) (b.next x) b ≡ some r
    → find_done (suc (suc n)) x b ≡ some (if b.done x then some x else r)
unfolding find_done
found_here b x n r e k = elim (Bool-cases (b.done x)) [ inl d ↦ rw (e, d) | inr d ↦ rw (e, d) k ]

-- `asyncns_getnext` on the list
find_done-first :
    (b : Blocks) (a : ℕ) (xs : List ℕ)
    → IsNew 0 xs
    → Leads b.next a xs 0
    → find_done (suc (length xs)) (b.next a) b ≡ some (first_done b.done xs)
find_done-first b a [] new h =
    subst (λ q. find_done 1 q b ≡ some none) (sym h) (unfold find_done in refl)
find_done-first b a (x ∷ xs) new h =
    subst (λ q. find_done (suc (suc (length xs))) q b ≡ some (first_done b.done (x ∷ xs))) (sym h.0)
      (found_here b x (length xs) (first_done b.done xs) (nonzero x new.0)
        (find_done-first b x xs new.1 h.1))

append_one : (cs : List ℕ) (c : ℕ) (ds : List ℕ) → (cs ++ c ∷ []) ++ ds ≡ cs ++ (c ∷ ds)
append_one [] c ds = refl
append_one (x ∷ cs) c ds = ap (λ l. x ∷ l) (append_one cs c ds)

append_nil : (cs : List ℕ) → cs ++ [] ≡ cs
append_nil [] = refl
append_nil (x ∷ cs) = ap (λ l. x ∷ l) (append_nil cs)

-- What `asyncns_free` leaves of a session with a list of blocks, each with a query: each query is freed
-- and each block, in order, and the ring is empty.
pub record IsCleared (query : ℕ → ℕ) (b : Blocks) (xs : List ℕ) (b' : Blocks) : Type 0 where
  pub returned : cancel_all (suc (length xs)) b ≡ some b'
  pub queries : b'.cancelled ≡ b.cancelled ++ map query xs
  pub blocks : b'.freed ≡ b.freed ++ xs
  pub empty : Holds b' []

cancel_step :
    (b b' : Blocks) (x n : ℕ)
    → b.next 0 ≡ x
    → (x == 0) ≡ false
    → cancel_all (suc n) (cancel x b) ≡ some b'
    → cancel_all (suc (suc n)) b ≡ some b'
unfolding cancel_all
cancel_step b b' x n e k h =
    subst
      (λ q.
        (if q == 0
          then some b
          else (if (cancel q b).next 0 == 0
              then some (cancel q b)
              else cancel_all n (cancel ((cancel q b).next 0) (cancel q b))))
        ≡ some b')
      (sym e) (rw k h)

-- the lists that one more cancelled query adds to
cancel-IsCleared :
    (b b' : Blocks) (x : ℕ) (xs : List ℕ)
    → Holds b (x ∷ xs)
    → IsCleared (cancel x b).query (cancel x b) xs b'
    → IsCleared b.query b (x ∷ xs) b'
cancel-IsCleared b b' x xs h c = record {
  returned = cancel_step b b' x (length xs) h.forward.0 (nonzero x h.distinct.0.0) c.returned;
  queries =
      unfold cancel dequeue in c.queries ∙ append_one b.cancelled (b.query x) (map b.query xs);
  blocks = unfold cancel dequeue in c.blocks ∙ append_one b.freed x xs;
  empty = c.empty;
}

clear : (xs : List ℕ) (b : Blocks) → Holds b xs → (b' : Blocks) × IsCleared b.query b xs b'
clear [] b h = (
  b,
  record {
    returned = empty_list;
    queries = sym (append_nil b.cancelled);
    blocks = sym (append_nil b.freed);
    empty = h;
  },
)
  where
    empty_list : cancel_all 1 b ≡ some b
    empty_list = unfold cancel_all in rw h.forward
clear (x ∷ xs) b h =
    let (b', c) = clear xs (cancel x b) (cancel-Holds b x [] xs h) in
    (b', cancel-IsCleared b b' x xs h c)

first_done-same :
    (f g : ℕ → Bool) (xs : List ℕ) → ((q : ℕ) → f q ≡ g q) → first_done f xs ≡ first_done g xs
first_done-same f g [] h = refl
first_done-same f g (x ∷ xs) h = rw (h x, first_done-same f g xs h) refl

map-same : (f g : ℕ → ℕ) (xs : List ℕ) → ((q : ℕ) → f q ≡ g q) → map f xs ≡ map g xs
map-same f g [] h = refl
map-same f g (x ∷ xs) h = rw (h x, map-same f g xs h) refl

IsCleared-same :
    (f g : ℕ → ℕ) (b : Blocks) (xs : List ℕ) (b' : Blocks)
    → ((q : ℕ) → f q ≡ g q)
    → IsCleared f b xs b'
    → IsCleared g b xs b'
IsCleared-same f g b xs b' h c = record {
  returned = c.returned;
  queries = c.queries ∙ ap (λ l. b.cancelled ++ l) (map-same f g xs h);
  blocks = c.blocks;
  empty = c.empty;
}

-- In every session that is reached from a new one, also where callbacks come before their queries are
-- added, the ring holds the blocks in the order in which they were added, less those taken out or
-- cancelled: asyncns_getnqueries counts them, asyncns_getnext finds the first whose callback came since
-- it was allocated, or none, and asyncns_free frees just the queries with which they were added, and
-- the blocks, each once and in order. The loops end after one more round than there are blocks.
pub session-Holds :
    (b : Blocks) (xs : List ℕ) (hs : List Happening)
    → Reached b xs hs
    → Holds b xs
      × (count_from (suc (length xs)) (b.next 0) b ≡ some (length xs))
      × (find_done (suc (length xs)) (b.next 0) b ≡ some (first_done (λ q. was_called q hs) xs))
      × ((b' : Blocks) × IsCleared (λ q. query_of q hs) b xs b')
session-Holds b xs hs r =
    let h = Reached-Holds r in
    let same = Reached-Matches r in
    let (b', cleared) = clear xs b h in
    (
      h,
      count_from-length b 0 xs h.distinct.0 h.forward,
      find_done-first b 0 xs h.distinct.0 h.forward
          ∙ ap some (first_done-same b.done (λ q. was_called q hs) xs (λ q. (same q).0)),
      (b', IsCleared-same b.query (λ q. query_of q hs) b xs b' (λ q. (same q).1) cleared),
    )
