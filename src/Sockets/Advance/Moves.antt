-- ===== src/Sockets/Advance/Moves.antt =====
-- How the operations of lib/socket.c on one socket, and its timeouts, change the sockets.
use netresolve.Prelude.{
  ℕ, ℤ, zero, suc, ◌≤◌, ◌≡◌, refl, ap, ◌∙◌, Bool, true, false, Option, none, some, List, [], ◌∷◌,
  arith, get_elem?, is_some, not,
}
use netresolve.Types.{SocketState, PathSocket, AddrPath}
use netresolve.Query.{Query}
use netresolve.Watch.{watch_add, watch_remove, timeout_add, timeout_remove}
use netresolve.Sockets.{
  Connection, Net, paths, same_socket_state, socket_at, put_socket, put, assert, remove_timer,
  clear_timeouts, remove_watch, watch_path, socket_schedule, socket_pause, socket_resume,
  remove_watch_if, close_if_open, closed_socket, socket_cleanup,
}
use netresolve.Sockets.Connecting.{start_timeout, start_priority_timeout}
use netresolve.Sockets.Advance.{rank, IsSound, Advances, Advances-put}

-- The sockets and `unfinished` are as they were.
abbrev pub Same : Connection → Connection → Type 0
Same c c' = (paths c' ≡ paths c) × (c'.unfinished ≡ c.unfinished)

Same-trans : (a b c : Connection) → Same a b → Same b c → Same a c
Same-trans a b c (p, u) (q, v) = (q ∙ p, v ∙ u)

watch_remove-response : (id : ℕ) (q : Query) → (watch_remove id q).response ≡ q.response
unfolding watch_remove
watch_remove-response id q = ground arith

pub assert-Same : (ok : Bool) (c : Connection) → Same c (assert ok c)
assert-Same true c = (refl, refl)
assert-Same false c = (refl, refl)

remove_timer-Same : (t : Option ℕ) (c : Connection) → Same c (remove_timer t c)
unfolding remove_timer timeout_remove
remove_timer-Same none c = (refl, refl)
remove_timer-Same (some id) c = (ap (λ r. r.paths) (watch_remove-response id c.query), refl)

pub clear_timeouts-Same : (c : Connection) → Same c (clear_timeouts c)
unfolding clear_timeouts
clear_timeouts-Same c =
    let c₁ = record (remove_timer c.timeout c) { timeout = none } in
    Same-trans c c₁ (remove_timer c₁.priority_timeout c₁) (remove_timer-Same c.timeout c)
      (remove_timer-Same c₁.priority_timeout c₁)

pub remove_watch-Same : (t : Option ℕ) (c : Connection) → Same c (remove_watch t c)
unfolding remove_watch
remove_watch-Same none c = (refl, refl)
remove_watch-Same (some id) c = (ap (λ r. r.paths) (watch_remove-response id c.query), refl)

close_if_open-Same : (fd : ℤ) (c : Connection) → Same c (close_if_open fd c)
unfolding close_if_open
close_if_open-Same fd c = (ground arith, ground arith)

remove_watch_if-Same : (t : Option ℕ) (c : Connection) → Same c (remove_watch_if t c)
unfolding remove_watch_if
remove_watch_if-Same none c = (refl, refl)
remove_watch_if-Same (some id) c = (ap (λ r. r.paths) (watch_remove-response id c.query), refl)

pub start_timeout-Same : (net : Net) (c : Connection) → Same c (start_timeout net c)
unfolding start_timeout timeout_add watch_add
start_timeout-Same net c = (ground arith, ground arith)

pub start_priority_timeout-Same :
    (net : Net) (c : Connection) → Same c (start_priority_timeout net c)
unfolding start_priority_timeout timeout_add watch_add
start_priority_timeout-Same net c = (ground arith, ground arith)

pub get_elem-socket :
    (i : ℕ) (ps : List AddrPath) (p : AddrPath)
    → get_elem? ps i ≡ some p
    → socket_at i ps ≡ some p.socket
get_elem-socket i [] p h = cc
get_elem-socket zero (x ∷ ps) p h = cc
get_elem-socket (suc i) (x ∷ ps) p h = get_elem-socket i ps p h

pub socket_at-put :
    (i : ℕ) (s t : PathSocket) (ps : List AddrPath)
    → socket_at i ps ≡ some s
    → socket_at i (put_socket i t ps) ≡ some t
socket_at-put i s t [] h = cc
socket_at-put zero s t (p ∷ ps) h = refl
socket_at-put (suc i) s t (p ∷ ps) h = socket_at-put i s t ps h

-- The sockets are as they were, and then one moves on.
move :
    (f i : ℕ) (s t : PathSocket) (c b : Connection)
    → socket_at i (paths c) ≡ some s
    → rank s.state ≤ rank t.state
    → (IsSound s → IsSound t)
    → Same c b
    → Advances f c (put i t b)
move f i s t c b at_i up keep (p, u) =
    Advances-put f i s t c (put i t b) at_i up keep (ap (put_socket i t) p) u

watch_path-Advances :
    (f i : ℕ) (s : PathSocket) (c b : Connection)
    → socket_at i (paths c) ≡ some s
    → rank s.state ≤ 1
    → Same c b
    → Advances f c (watch_path i s b)
unfolding watch_path watch_add
watch_path-Advances f i s c b at_i low (p, u) =
    Advances-put f i s _ c (watch_path i s b) at_i low (λ h. tt) (ap (put_socket i _) p) u

pub socket_schedule-Advances :
    (f i : ℕ) (s : PathSocket) (c : Connection)
    → socket_at i (paths c) ≡ some s
    → rank s.state ≤ 1
    → Advances f c (socket_schedule i s c)
unfolding socket_schedule
socket_schedule-Advances f i s c at_i low = watch_path-Advances f i s c _ at_i low (assert-Same _ c)

pub socket_resume-Advances :
    (f i : ℕ) (s : PathSocket) (c : Connection)
    → socket_at i (paths c) ≡ some s
    → rank s.state ≤ 1
    → Advances f c (socket_resume i s c)
unfolding socket_resume
socket_resume-Advances f i s c at_i low =
    let c₁ = assert (same_socket_state s.state SocketState.scheduled) c in
    let ok = not (is_some s.watch) in
    watch_path-Advances f i s c (assert ok c₁) at_i low
      (Same-trans c c₁ (assert ok c₁) (assert-Same _ c) (assert-Same ok c₁))

unwatched-IsSound :
    (x : SocketState) (w : Option ℕ) (fd : ℤ)
    → IsSound (record { state = x; watch = w; fd = fd })
    → IsSound (record { state = x; watch = none; fd = fd })
unwatched-IsSound SocketState.none w fd h = refl
unwatched-IsSound SocketState.scheduled w fd h = tt
unwatched-IsSound SocketState.ready w fd h = refl
unwatched-IsSound SocketState.done w fd (_, h) = (refl, h)

-- What `socket_pause` does before it puts the socket.
abbrev unwatch : PathSocket → Connection → Connection
unwatch s c =
    let c₁ = assert (same_socket_state s.state SocketState.scheduled) c in
    remove_watch s.watch (assert (is_some s.watch) c₁)

unwatch-Same : (s : PathSocket) (c : Connection) → Same c (unwatch s c)
unwatch-Same s c =
    let c₁ = assert (same_socket_state s.state SocketState.scheduled) c in
    let c₂ = assert (is_some s.watch) c₁ in
    Same-trans c c₁ (unwatch s c) (assert-Same _ c)
      (Same-trans c₁ c₂ (unwatch s c) (assert-Same _ c₁) (remove_watch-Same s.watch c₂))

pub socket_pause-Advances :
    (f i : ℕ) (s : PathSocket) (c : Connection)
    → socket_at i (paths c) ≡ some s
    → Advances f c (socket_pause i s c)
unfolding socket_pause
socket_pause-Advances f i s c at_i =
    move f i s (record s { watch = none }) c (unwatch s c) at_i (omega arith)
      (unwatched-IsSound s.state s.watch s.fd) (unwatch-Same s c)

pub socket_at-socket_pause :
    (i : ℕ) (s : PathSocket) (c : Connection)
    → socket_at i (paths c) ≡ some s
    → socket_at i (paths (socket_pause i s c)) ≡ some (record s { watch = none })
unfolding socket_pause
socket_at-socket_pause i s c at_i =
    let paused : PathSocket = record s { watch = none } in
    let (p, _) = unwatch-Same s c in
    ap (λ ps. socket_at i (put_socket i paused ps)) p ∙ socket_at-put i s paused (paths c) at_i

rank-le : (s : SocketState) → rank s ≤ 3
rank-le s = ground arith

pub socket_cleanup-Advances :
    (f i : ℕ) (s : PathSocket) (c : Connection)
    → socket_at i (paths c) ≡ some s
    → Advances f c (socket_cleanup i s c)
unfolding socket_cleanup
socket_cleanup-Advances f i s c at_i =
    let c₁ = remove_watch_if s.watch c in
    move f i s closed_socket c (close_if_open s.fd c₁) at_i (rank-le s.state) (λ h. (refl, refl))
      (Same-trans c c₁ (close_if_open s.fd c₁) (remove_watch_if-Same s.watch c)
        (close_if_open-Same s.fd c₁))

pub socket_cleanup-paths :
    (i : ℕ) (s : PathSocket) (c : Connection)
    → paths (socket_cleanup i s c) ≡ put_socket i closed_socket (paths c)
unfolding socket_cleanup
socket_cleanup-paths i s c =
    let c₁ = remove_watch_if s.watch c in
    let (p, _) = remove_watch_if-Same s.watch c in
    let (q, _) = close_if_open-Same s.fd c₁ in ap (put_socket i closed_socket) (q ∙ p)
