-- ===== src/Epoll.antt =====
-- lib/epoll.c: the event loop over epoll. What epoll_ctl and epoll_wait do is given with each call; the
-- handler of a watch is the calls of `add_watch` and `remove_watch` that it makes.
mod Pending
mod Examples
use netresolve.Prelude.{
  ℕ, zero, suc, ◌+◌, ◌-◌, Bool, true, false, not, ◌||◌, Option, none, some, List, [], ◌∷◌,
  get_elem?, length, ltb, ◌==◌, ◌>>=◌, if◌then◌else◌,
}

-- struct epoll_event; `ptr` is a watch, named by its number, or NULL
pub record PendingEvent : Type 0 where
  pub events : ℕ
  pub ptr : Option ℕ

-- struct netresolve_epoll; `nevents` is the length of `events`. `watches` has the watches that were added
-- and not removed, which the code does not keep, and `dangling` says whether another one was dispatched.
pub record EpollLoop : Type 0 where
  pub count : ℕ
  pub events : List PendingEvent
  pub watches : List ℕ
  pub dangling : Bool

-- A call of the loop's functions, with whether epoll_ctl succeeds; otherwise the code aborts.
pub data EpollCall : Type 0 where
  add remove : ℕ → Bool → EpollCall

-- `add_watch`
pub add_watch : ℕ → Bool → EpollLoop → Option EpollLoop
add_watch watch ok loop =
    if ok
    then some (record loop { count = loop.count + 1; watches = watch ∷ loop.watches })
    else none

abbrev pub same_ptr : ℕ → Option ℕ → Bool
same_ptr handle none = false
same_ptr handle (some watch) = handle == watch

-- the loop of `remove_watch` that disables the pending events of the watch
pub disable : ℕ → List PendingEvent → List PendingEvent
disable handle [] = []
disable handle (e ∷ es) =
    (if same_ptr handle e.ptr then record e { ptr = none } else e) ∷ disable handle es

pub drop_watch : ℕ → List ℕ → List ℕ
drop_watch handle [] = []
drop_watch handle (w ∷ ws) =
    let rest = drop_watch handle ws in if handle == w then rest else w ∷ rest

-- `remove_watch`
pub remove_watch : ℕ → Bool → EpollLoop → Option EpollLoop
unfolding disable drop_watch
remove_watch handle ok loop =
    if ok
    then some (record loop {
      count = loop.count - 1;
      events = disable handle loop.events;
      watches = drop_watch handle loop.watches;
    })
    else none

-- The calls of a handler, in order.
make_calls : List EpollCall → EpollLoop → Option EpollLoop
unfolding add_watch remove_watch
make_calls [] loop = some loop
make_calls (EpollCall.add watch ok ∷ calls) loop = add_watch watch ok loop >>= make_calls calls
make_calls (EpollCall.remove handle ok ∷ calls) loop =
    remove_watch handle ok loop >>= make_calls calls

-- What `netresolve_dispatch` of a watch with its events makes the loop do.
abbrev pub Handlers : Type 0
Handlers = ℕ → ℕ → List EpollCall

pub is_added : ℕ → List ℕ → Bool
is_added watch [] = false
is_added watch (w ∷ ws) = let rest = is_added watch ws in watch == w || rest

dispatch_ptr : Handlers → ℕ → Option ℕ → EpollLoop → Option EpollLoop
unfolding make_calls is_added
dispatch_ptr handlers events none loop = some loop
dispatch_ptr handlers events (some watch) loop =
    make_calls (handlers watch events)
      (record loop { dangling = loop.dangling || not (is_added watch loop.watches) })

dispatch_pending : Handlers → Option PendingEvent → EpollLoop → Option EpollLoop
unfolding dispatch_ptr
dispatch_pending handlers none loop = some loop
dispatch_pending handlers (some e) loop = dispatch_ptr handlers e.events e.ptr loop

-- The loop of `dispatch_events` over `n` events from the one of number `i` on. A handler may disable
-- those behind, so each is read when it is reached.
dispatch_from : Handlers → ℕ → ℕ → EpollLoop → Option EpollLoop
unfolding dispatch_pending
dispatch_from handlers zero i loop = some loop
dispatch_from handlers (suc n) i loop =
    dispatch_pending handlers (get_elem? loop.events i) loop >>= dispatch_from handlers n (i + 1)

-- What epoll_wait returns: an error or events.
pub data WaitResult : Type 0 where
  error : WaitResult
  ready : List PendingEvent → WaitResult

-- `dispatch_events`; `none` is the call of `abort`
pub dispatch_events : Handlers → WaitResult → EpollLoop → Option EpollLoop
unfolding dispatch_from
dispatch_events handlers WaitResult.error loop = none
dispatch_events handlers (WaitResult.ready es) loop =
    dispatch_from handlers (length es) 0 (record loop { events = es })

-- How `netresolve_epoll_wait` stands after some results of epoll_wait: it has returned, or waits on.
pub data Waiting : Type 0 where
  returned : EpollLoop → Waiting
  waits : EpollLoop → Waiting

-- `netresolve_epoll_wait`, on the results of epoll_wait that are there; `none` is the call of `abort`
pub epoll_wait : Handlers → List WaitResult → EpollLoop → Option Waiting
unfolding dispatch_events
epoll_wait handlers [] loop =
    if ltb 0 loop.count then some (Waiting.waits loop) else some (Waiting.returned loop)
epoll_wait handlers (r ∷ rs) loop =
    let next = dispatch_events handlers r loop >>= epoll_wait handlers rs in
    if ltb 0 loop.count then next else some (Waiting.returned loop)

abbrev has_events : WaitResult → Bool
has_events (WaitResult.ready (e ∷ es)) = true
has_events _ = false

-- `netresolve_epoll_dispatch`, on the results of epoll_wait that are there: it goes on until one has no
-- events; `none` is the call of `abort`
pub epoll_dispatch : Handlers → List WaitResult → EpollLoop → Option Waiting
unfolding dispatch_events
epoll_dispatch handlers [] loop = some (Waiting.waits loop)
epoll_dispatch handlers (r ∷ rs) loop =
    let rest = epoll_dispatch handlers rs in
    dispatch_events handlers r loop
    >>= (λ l. if has_events r then rest l else some (Waiting.returned l))
