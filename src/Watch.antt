-- ===== src/Watch.antt =====
-- lib/event.c: the watches and timeouts of a query. The event loop behind them, reached through
-- `context->callbacks`, is told of each watch and is not modelled here.
pub mod Tracking
mod Examples
use netresolve.Prelude.{
  ℕ, ◌+◌, ◌-◌, Option, none, some, List, [], ◌∷◌, ◌++◌, ◌==◌, ltb, if◌then◌else◌,
}
use netresolve.Query.{Watch, WatchCallback, Query, Env, assertion, dangling_watch, fault, check}

-- `netresolve_watch_add`: the watch is put at the end of the list
unfoldable pub watch_add : ℕ → WatchCallback → Query → Query
watch_add fd callback q = record q {
  watches = q.watches ++ record { id = q.next_watch; fd = fd; callback = callback } ∷ [];
  nfds = q.nfds + 1;
  next_watch = q.next_watch + 1;
}

unfoldable pub find_watch : ℕ → List Watch → Option Watch
find_watch id [] = none
find_watch id (w ∷ ws) = let rest = find_watch id ws in if w.id == id then some w else rest

unfoldable pub unlink : ℕ → List Watch → List Watch
unlink id [] = []
unlink id (w ∷ ws) = let rest = unlink id ws in if w.id == id then ws else w ∷ rest

-- `netresolve_watch_remove`. The source does not look for the watch: one that is gone is a block that
-- was freed, which it reads and writes, and the count goes down all the same.
unfoldable pub watch_remove : ℕ → Query → Query
watch_remove id q = elim (find_watch id q.watches) [
  | none ↦
      let c = fault dangling_watch (check (ltb 0 q.nfds) assertion q) in
      record c { nfds = q.nfds - 1 }
  | some w ↦
      let c = check (ltb 0 q.nfds) assertion q in
      record c { watches = unlink id q.watches; nfds = q.nfds - 1 }
]

-- `netresolve_timeout_add`: a watch on a new timer descriptor, or NULL if there is none
unfoldable pub timeout_add : Env → WatchCallback → Query → Option ℕ × Query
unfolding watch_add
timeout_add env callback q = elim (env.timerfd q.next_watch) [
  | none ↦ (none, q)
  | some fd ↦ (some q.next_watch, watch_add fd callback q)
]

-- `netresolve_timeout_remove`
unfoldable pub timeout_remove : ℕ → Query → Query
unfolding watch_remove
timeout_remove id q = watch_remove id q

unfoldable pub remove_all : List ℕ → Query → Query
unfolding watch_remove
remove_all [] q = q
remove_all (id ∷ ids) q = remove_all ids (watch_remove id q)
