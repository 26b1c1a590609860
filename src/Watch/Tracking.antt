-- ===== src/Watch/Tracking.antt =====
-- The watch list of lib/event.c and its count.
use netresolve.Prelude.{
  ℕ, suc, ◌-◌, ◌<◌, ◌+◌, All-append, length-append, ◌≡◌, refl, ap, true, some, List, [], ◌∷◌, ◌++◌,
  arith, All, Bool-cases, inl, inr, length, ◌==◌, ==_iff, ltb,
}
use netresolve.Query.{Watch, WatchCallback, Query}
use netresolve.Watch.{watch_add, find_watch, unlink, watch_remove}

-- Every watch has a number that was given out, and the count is that of the list.
abbrev pub IsTracked : Query → Type 0
IsTracked q = All (λ w. w.id < q.next_watch) q.watches × (q.nfds ≡ length q.watches)

unlink-All : (P : Watch → Type 0) (id : ℕ) (ws : List Watch) → All P ws → All P (unlink id ws)
unfolding unlink
unlink-All P id [] h = tt
unlink-All P id (w ∷ ws) (hw, h) = elim (Bool-cases (w.id == id)) [
  | inl e ↦ rw e h
  | inr e ↦ rw e (hw, unlink-All P id ws h)
]

length-unlink :
    (id : ℕ) (ws : List Watch) (w : Watch)
    → find_watch id ws ≡ some w
    → length ws ≡ suc (length (unlink id ws))
unfolding find_watch unlink
length-unlink id [] w h = cc
length-unlink id (x ∷ ws) w h = elim (Bool-cases (x.id == id)) [
  | inl e ↦ rw e refl
  | inr e ↦ rw e (ap suc (length-unlink id ws w (rw e at h)))
]

find_watch-append :
    (ws : List Watch) (w : Watch)
    → All (λ x. x.id < w.id) ws
    → find_watch w.id (ws ++ w ∷ []) ≡ some w
unfolding find_watch
find_watch-append [] w h = ground (arith, ==_iff w.id w.id)
find_watch-append (x ∷ ws) w (hx, h) = ground (arith, find_watch-append ws w h)

unlink-append :
    (ws : List Watch) (w : Watch) → All (λ x. x.id < w.id) ws → unlink w.id (ws ++ w ∷ []) ≡ ws
unfolding unlink
unlink-append [] w h = ground arith
unlink-append (x ∷ ws) w (hx, h) = ground (arith, unlink-append ws w h)

rises : (n : ℕ) (ws : List Watch) → All (λ w. w.id < n) ws → All (λ w. w.id < n + 1) ws
rises n [] h = tt
rises n (w ∷ ws) (hw, h) = (omega (arith, hw), rises n ws h)

pub watch_add-IsTracked :
    (fd : ℕ) (callback : WatchCallback) (q : Query)
    → IsTracked q
    → IsTracked (watch_add fd callback q)
unfolding watch_add
watch_add-IsTracked fd callback q (fresh, count) =
    let w : Watch = record { id = q.next_watch; fd = fd; callback = callback } in
    (
      All-append (λ w. w.id < q.next_watch + 1) q.watches (w ∷ [])
          (rises q.next_watch q.watches fresh) (omega arith, tt),
      omega (arith, count, length-append q.watches (w ∷ [])),
    )

-- A watch that is there is unlinked.
removed :
    (id : ℕ) (q : Query) (w : Watch)
    → find_watch id q.watches ≡ some w
    → 0 < q.nfds
    → watch_remove id q ≡ record q { watches = unlink id q.watches; nfds = q.nfds - 1 }
unfolding watch_remove
removed id q w e h =
    let positive : ltb 0 q.nfds ≡ true = ground arith in rw (e, watch_remove, positive)

-- What adding and removing a watch leaves as it was.
pub record Restored (q q' : Query) : Type 0 where
  pub watches : q'.watches ≡ q.watches
  pub nfds : q'.nfds ≡ q.nfds
  pub faults : q'.faults ≡ q.faults

abbrev new_watch : ℕ → WatchCallback → Query → Watch
new_watch fd callback q = record { id = q.next_watch; fd = fd; callback = callback }

-- Removing the watch that has just been added gives back the list and the count, and no assertion
-- fails.
pub watch_remove-watch_add :
    (fd : ℕ) (callback : WatchCallback) (q : Query)
    → IsTracked q
    → Restored q (watch_remove q.next_watch (watch_add fd callback q))
unfolding watch_add
watch_remove-watch_add fd callback q (fresh, count) =
    let w = new_watch fd callback q in
    let added = watch_add fd callback q in
    let found : find_watch q.next_watch added.watches ≡ some w =
      find_watch-append q.watches w fresh in
    rw (removed q.next_watch added w found (omega arith))
      (record { watches = unlink-append q.watches w fresh; nfds = omega arith; faults = refl })

-- Removing a watch that is there keeps the count that of the list, which gets shorter by one, and no
-- assertion fails.
pub watch_remove-IsTracked :
    (id : ℕ) (q : Query) (w : Watch)
    → find_watch id q.watches ≡ some w
    → IsTracked q
    → IsTracked (watch_remove id q)
      × ((watch_remove id q).faults ≡ q.faults)
      × (length q.watches ≡ suc (length (watch_remove id q).watches))
watch_remove-IsTracked id q w e (fresh, count) =
    let shorter = length-unlink id q.watches w e in
    let kept = unlink-All (λ x. x.id < q.next_watch) id q.watches fresh in
    let there : 0 < q.nfds = omega (arith, count, shorter) in
    rw (removed id q w e there) ((kept, omega (arith, count, shorter)), refl, shorter)
