-- ===== src/Epoll/Examples.antt =====
-- Two watches of lib/epoll.c are ready; the handler of the first removes the second.
use netresolve.Prelude.{◌≡◌, refl, true, false, none, some, List, [], ◌∷◌, ◌==◌, if◌then◌else◌, All}
use netresolve.Epoll.{
  PendingEvent, EpollLoop, EpollCall, Handlers, is_added, WaitResult, dispatch_events, drop_watch,
  disable,
}
use netresolve.Epoll.Pending.{IsLive, IsClean, Leaves, dispatch_events-IsClean}

abbrev two : EpollLoop
two = record { count = 2; events = []; watches = 8 ∷ 7 ∷ []; dangling = false }

abbrev both : List PendingEvent
both = record { events = 1; ptr = some 7 } ∷ record { events = 1; ptr = some 8 } ∷ []

abbrev handlers : Handlers
handlers watch events =
    if watch == 7 then EpollCall.remove 8 true ∷ [] else EpollCall.remove 7 true ∷ []

only_first :
    dispatch_events handlers (WaitResult.ready both) two
    ≡ some (record {
      count = 1;
      events = record { events = 1; ptr = some 7 } ∷ record { events = 1; ptr = none } ∷ [];
      watches = 7 ∷ [];
      dangling = false;
    })
unfolding dispatch_events disable drop_watch
only_first = refl

both-IsLive : All (IsLive two.watches) both
unfolding is_added
both-IsLive = (refl, (refl, tt))

dispatch_events-IsClean_example :
    Leaves IsClean (dispatch_events handlers (WaitResult.ready both) two)
dispatch_events-IsClean_example = dispatch_events-IsClean handlers both two refl both-IsLive
