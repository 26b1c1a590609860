-- ===== src/Epoll/Pending.antt =====
-- The events of lib/epoll.c that are pending while handlers add and remove watches.
use mathlib.Core.Path.{subst}
use netresolve.Prelude.{
  ℕ, zero, suc, ◌+◌, ◌≡◌, refl, Bool, true, false, not, ◌||◌, Option, none, some, List, [], ◌∷◌,
  get_elem?, length, All, Bool-cases, inl, inr, arith, ◌==◌, ◌>>=◌, if◌then◌else◌,
}
use netresolve.Epoll.{
  PendingEvent, EpollLoop, EpollCall, add_watch, same_ptr, disable, drop_watch, remove_watch,
  make_calls, Handlers, is_added, dispatch_ptr, dispatch_pending, dispatch_from, WaitResult,
  dispatch_events,
}

-- An event is for a watch that was added and not removed, or disabled.
abbrev pub IsLive : List ℕ → PendingEvent → Type 0
IsLive ws e = elim e.ptr [ none ↦ Unit {0} | some watch ↦ is_added watch ws ≡ true ]

-- Every pending event is live, and none but an added watch was dispatched.
abbrev pub IsClean : EpollLoop → Type 0
IsClean loop = All (IsLive loop.watches) loop.events × (loop.dangling ≡ false)

added-IsLive :
    (w : ℕ) (ws : List ℕ) (ptr : Option ℕ) (n : ℕ)
    → IsLive ws (record { events = n; ptr = ptr })
    → IsLive (w ∷ ws) (record { events = n; ptr = ptr })
unfolding is_added
added-IsLive w ws none n h = tt
added-IsLive w ws (some v) n h = ground arith

is_added-drop_watch :
    (v w : ℕ) (ws : List ℕ)
    → (w == v) ≡ false
    → is_added v ws ≡ true
    → is_added v (drop_watch w ws) ≡ true
unfolding is_added drop_watch
is_added-drop_watch v w [] e h = cc
is_added-drop_watch v w (x ∷ ws) e h = ground (arith, is_added-drop_watch v w ws e)

disabled-IsLive :
    (w : ℕ) (ws : List ℕ) (ptr : Option ℕ) (n : ℕ)
    → IsLive ws (record { events = n; ptr = ptr })
    → IsLive (drop_watch w ws) (
        if same_ptr w ptr
        then record { events = n; ptr = none }
        else record { events = n; ptr = ptr })
disabled-IsLive w ws none n h = tt
disabled-IsLive w ws (some v) n h = elim (Bool-cases (w == v)) [
  | inl e ↦ rw e tt
  | inr e ↦ rw e (is_added-drop_watch v w ws e h)
]

add_watch-All :
    (w : ℕ) (ws : List ℕ) (es : List PendingEvent) → All (IsLive ws) es → All (IsLive (w ∷ ws)) es
add_watch-All w ws [] h = tt
add_watch-All w ws (e ∷ es) (he, h) = (added-IsLive w ws e.ptr e.events he, add_watch-All w ws es h)

disable-All :
    (w : ℕ) (ws : List ℕ) (es : List PendingEvent)
    → All (IsLive ws) es
    → All (IsLive (drop_watch w ws)) (disable w es)
unfolding disable
disable-All w ws [] h = tt
disable-All w ws (e ∷ es) (he, h) = (disabled-IsLive w ws e.ptr e.events he, disable-All w ws es h)

-- `P` holds of what a step leaves, unless it aborts.
abbrev pub Leaves : (EpollLoop → Type 0) → Option EpollLoop → Type 0
Leaves P none = Unit {0}
Leaves P (some loop) = P loop

bind-IsClean :
    (o : Option EpollLoop) (f : EpollLoop → Option EpollLoop)
    → Leaves IsClean o
    → ((loop : EpollLoop) → IsClean loop → Leaves IsClean (f loop))
    → Leaves IsClean (o >>= f)
bind-IsClean none f h k = tt
bind-IsClean (some loop) f h k = k loop h

add_watch-IsClean :
    (w : ℕ) (ok : Bool) (loop : EpollLoop) → IsClean loop → Leaves IsClean (add_watch w ok loop)
unfolding add_watch
add_watch-IsClean w true loop (h, d) = (add_watch-All w loop.watches loop.events h, d)
add_watch-IsClean w false loop h = tt

remove_watch-IsClean :
    (w : ℕ) (ok : Bool) (loop : EpollLoop) → IsClean loop → Leaves IsClean (remove_watch w ok loop)
unfolding remove_watch
remove_watch-IsClean w true loop (h, d) = (disable-All w loop.watches loop.events h, d)
remove_watch-IsClean w false loop h = tt

make_calls-IsClean :
    (calls : List EpollCall) (loop : EpollLoop)
    → IsClean loop
    → Leaves IsClean (make_calls calls loop)
unfolding make_calls
make_calls-IsClean [] loop h = h
make_calls-IsClean (EpollCall.add w ok ∷ calls) loop h =
    bind-IsClean (add_watch w ok loop) (make_calls calls) (add_watch-IsClean w ok loop h)
      (make_calls-IsClean calls)
make_calls-IsClean (EpollCall.remove w ok ∷ calls) loop h =
    bind-IsClean (remove_watch w ok loop) (make_calls calls) (remove_watch-IsClean w ok loop h)
      (make_calls-IsClean calls)

get_elem-IsLive :
    (ws : List ℕ) (es : List PendingEvent) (i n : ℕ) (ptr : Option ℕ)
    → All (IsLive ws) es
    → get_elem? es i ≡ some (record { events = n; ptr = ptr })
    → IsLive ws (record { events = n; ptr = ptr })
get_elem-IsLive ws [] i n ptr h e = cc
get_elem-IsLive ws (x ∷ es) zero n ptr (hx, h) e =
    let same : x ≡ record { events = n; ptr = ptr } = cc in subst (IsLive ws) same hx
get_elem-IsLive ws (x ∷ es) (suc i) n ptr (hx, h) e = get_elem-IsLive ws es i n ptr h e

dispatch_ptr-IsClean :
    (handlers : Handlers) (n : ℕ) (ptr : Option ℕ) (loop : EpollLoop)
    → IsLive loop.watches (record { events = n; ptr = ptr })
    → IsClean loop
    → Leaves IsClean (dispatch_ptr handlers n ptr loop)
unfolding dispatch_ptr
dispatch_ptr-IsClean handlers n none loop live h = h
dispatch_ptr-IsClean handlers n (some w) loop live (h, d) =
    make_calls-IsClean (handlers w n)
      (record loop { dangling = loop.dangling || not (is_added w loop.watches) })
      (h, rw (live, d) refl)

dispatch_pending-IsClean :
    (handlers : Handlers) (o : Option PendingEvent) (i : ℕ) (loop : EpollLoop)
    → get_elem? loop.events i ≡ o
    → IsClean loop
    → Leaves IsClean (dispatch_pending handlers o loop)
unfolding dispatch_pending
dispatch_pending-IsClean handlers none i loop e h = h
dispatch_pending-IsClean handlers (some p) i loop e (h, d) =
    dispatch_ptr-IsClean handlers p.events p.ptr loop
      (get_elem-IsLive loop.watches loop.events i p.events p.ptr h e) (h, d)

dispatch_from-IsClean :
    (handlers : Handlers) (n i : ℕ) (loop : EpollLoop)
    → IsClean loop
    → Leaves IsClean (dispatch_from handlers n i loop)
unfolding dispatch_from
dispatch_from-IsClean handlers zero i loop h = h
dispatch_from-IsClean handlers (suc n) i loop h =
    bind-IsClean (dispatch_pending handlers (get_elem? loop.events i) loop)
      (dispatch_from handlers n (i + 1))
      (dispatch_pending-IsClean handlers (get_elem? loop.events i) i loop refl h)
      (dispatch_from-IsClean handlers n (i + 1))

-- If epoll_wait returns events of watches that were added and not removed, then `dispatch_events`
-- dispatches no other watch, whichever watches the handlers add and remove on the way: the events of a
-- removed watch that are pending are disabled in time.
pub dispatch_events-IsClean :
    (handlers : Handlers) (es : List PendingEvent) (loop : EpollLoop)
    → loop.dangling ≡ false
    → All (IsLive loop.watches) es
    → Leaves IsClean (dispatch_events handlers (WaitResult.ready es) loop)
unfolding dispatch_events
dispatch_events-IsClean handlers es loop d h =
    dispatch_from-IsClean handlers (length es) 0 (record loop { events = es }) (h, d)
