-- ===== src/Watch/Examples.antt =====
-- The watch list (lib/event.c) of a query with one watch.
use netresolve.Prelude.{ℕ, ◌≡◌, refl, [], ◌∷◌}
use netresolve.Types.{State}
use netresolve.Query.{zero_query, WatchCallback, Query}
use netresolve.Watch.{watch_remove, find_watch}

abbrev watching : Query
watching = record zero_query {
  state = State.waiting;
  watches = record { id = 4; fd = 3; callback = WatchCallback.plugin 0 } ∷ [];
  nfds = 1;
  next_watch = 5;
}

removed : ◌≡◌ {A = ℕ} (watch_remove 4 watching).nfds 0
unfolding watch_remove find_watch
removed = refl
