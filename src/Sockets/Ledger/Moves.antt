-- ===== src/Sockets/Ledger/Moves.antt =====
-- The account of the descriptors through the operations of lib/socket.c on one socket, and its timeouts.
use netresolve.Prelude.{
  ℕ, ℤ, zero, suc, pos, negsuc, ◌+◌, ◌≤◌, ◌≡◌, refl, ap, ◌∙◌, Bool, true, false, Option, none, some,
  arith, is_some, not,
}
use netresolve.Types.{SocketState, PathSocket}
use netresolve.Sockets.{
  Connection, Net, paths, same_socket_state, socket_at, put_socket, put, assert, remove_timer,
  clear_timeouts, remove_watch, watch_path, socket_schedule, socket_pause, socket_resume,
  remove_watch_if, close_if_open, closed_socket, socket_cleanup,
}
use netresolve.Watch.{watch_add}
use netresolve.Sockets.Connecting.{start_timeout, start_priority_timeout, ready_socket}
use netresolve.Sockets.Advance.{rank}
use netresolve.Sockets.Advance.Moves.{
  clear_timeouts-Same, start_timeout-Same, start_priority_timeout-Same, socket_at-socket_pause,
  socket_cleanup-paths, remove_watch-Same,
}
use netresolve.Sockets.Ledger.{is_fd, count, done_one, Owns, Ledger, Still, Ledger-put, count-snoc}

pub Still-trans : (a b c : Connection) → Still a b → Still b c → Still a c
Still-trans a b c (p, k, h) (p', k', h') = (p' ∙ p, k' ∙ k, h' ∙ h)

pub assert-Still : (ok : Bool) (c : Connection) → Still c (assert ok c)
assert-Still true c = (refl, refl, refl)
assert-Still false c = (refl, refl, refl)

-- The descriptors given away are as they were.
abbrev Shut : Connection → Connection → Type 0
Shut c c' = (c'.closed ≡ c.closed) × (c'.passed ≡ c.passed)

remove_timer-Shut : (t : Option ℕ) (c : Connection) → Shut c (remove_timer t c)
unfolding remove_timer
remove_timer-Shut none c = (refl, refl)
remove_timer-Shut (some id) c = (refl, refl)

pub clear_timeouts-Still : (c : Connection) → Still c (clear_timeouts c)
unfolding clear_timeouts
clear_timeouts-Still c =
    let c₁ = record (remove_timer c.timeout c) { timeout = none } in
    let (k, h) = remove_timer-Shut c.timeout c in
    let (k', h') = remove_timer-Shut c₁.priority_timeout c₁ in
    let (p, _) = clear_timeouts-Same c in (p, k' ∙ k, h' ∙ h)

remove_watch-Shut : (t : Option ℕ) (c : Connection) → Shut c (remove_watch t c)
unfolding remove_watch
remove_watch-Shut none c = (refl, refl)
remove_watch-Shut (some id) c = (refl, refl)

remove_watch_if-Shut : (t : Option ℕ) (c : Connection) → Shut c (remove_watch_if t c)
unfolding remove_watch_if
remove_watch_if-Shut none c = (refl, refl)
remove_watch_if-Shut (some id) c = (refl, refl)

pub start_timeout-Still : (net : Net) (c : Connection) → Still c (start_timeout net c)
unfolding start_timeout
start_timeout-Still net c = let (p, _) = start_timeout-Same net c in (p, ground arith, ground arith)

pub start_priority_timeout-Still :
    (net : Net) (c : Connection) → Still c (start_priority_timeout net c)
unfolding start_priority_timeout
start_priority_timeout-Still net c =
    let (p, _) = start_priority_timeout-Same net c in (p, ground arith, ground arith)

low_done_one : (x : ℕ) (fd : ℤ) (s : SocketState) → rank s ≤ 2 → done_one x fd s ≡ 0
low_done_one x fd SocketState.none h = refl
low_done_one x fd SocketState.scheduled h = refl
low_done_one x fd SocketState.ready h = refl
low_done_one x fd SocketState.done h = absurd (omega arith)

close_if_open-count :
    (x : ℕ) (fd : ℤ) (c : Connection)
    → count x (close_if_open fd c).closed ≡ count x c.closed + is_fd x fd
unfolding close_if_open
close_if_open-count x (pos n) c = count-snoc x (pos n) c.closed
close_if_open-count x (negsuc zero) c = omega arith
close_if_open-count x (negsuc (suc n)) c = count-snoc x (negsuc (suc n)) c.closed

close_if_open-passed : (fd : ℤ) (c : Connection) → (close_if_open fd c).passed ≡ c.passed
unfolding close_if_open
close_if_open-passed fd c = ground arith

module _ (net : Net) (extra : ℕ → ℕ) where
  -- A socket that is not done moves on, and is not done yet; `b` is as `c` but for watches and timeouts.
  live_move :
      (i : ℕ) (s t : PathSocket) (c b c' : Connection)
      → Ledger net extra c
      → socket_at i (paths c) ≡ some s
      → rank s.state ≤ 2
      → rank t.state ≤ 2
      → Owns (net.fd i) t
      → Still c b
      → paths c' ≡ put_socket i t (paths b)
      → Shut b c'
      → Ledger net extra c'
  live_move i s t c b c' l at_i low low' owns (p, k, h) q (k', h') =
      Ledger-put net extra extra i s t c c' l at_i owns (q ∙ ap (put_socket i t) p) λ x.
        rw (k', h', k, h)
          (omega
            (arith, low_done_one x (net.fd i) s.state low, low_done_one x (net.fd i) t.state low'))

  watch_path-Ledger :
      (i : ℕ) (s : PathSocket) (c b : Connection)
      → Ledger net extra c
      → socket_at i (paths c) ≡ some s
      → rank s.state ≤ 2
      → s.fd ≡ net.fd i
      → Still c b
      → Ledger net extra (watch_path i s b)
  unfolding watch_path watch_add
  watch_path-Ledger i s c b l at_i low fd still =
      live_move i s _ c b (watch_path i s b) l at_i low (omega arith) fd still refl (refl, refl)

  pub socket_schedule-Ledger :
      (i : ℕ) (s : PathSocket) (c : Connection)
      → Ledger net extra c
      → socket_at i (paths c) ≡ some s
      → rank s.state ≤ 2
      → s.fd ≡ net.fd i
      → Ledger net extra (socket_schedule i s c)
  unfolding socket_schedule
  socket_schedule-Ledger i s c l at_i low fd =
      watch_path-Ledger i s c _ l at_i low fd (assert-Still _ c)

  pub socket_resume-Ledger :
      (i : ℕ) (s : PathSocket) (c : Connection)
      → Ledger net extra c
      → socket_at i (paths c) ≡ some s
      → rank s.state ≤ 2
      → s.fd ≡ net.fd i
      → Ledger net extra (socket_resume i s c)
  unfolding socket_resume
  socket_resume-Ledger i s c l at_i low fd =
      let c₁ = assert (same_socket_state s.state SocketState.scheduled) c in
      let ok = not (is_some s.watch) in
      watch_path-Ledger i s c (assert ok c₁) l at_i low fd
        (Still-trans c c₁ (assert ok c₁) (assert-Still _ c) (assert-Still ok c₁))

  unwatched-Owns :
      (x : SocketState) (w : Option ℕ) (fd fd' : ℤ)
      → Owns fd (record { state = x; watch = w; fd = fd' })
      → Owns fd (record { state = x; watch = none; fd = fd' })
  unwatched-Owns SocketState.none w fd fd' h = tt
  unwatched-Owns SocketState.scheduled w fd fd' h = h
  unwatched-Owns SocketState.ready w fd fd' h = h
  unwatched-Owns SocketState.done w fd fd' h = tt

  socket_pause-Still :
      (i : ℕ) (s : PathSocket) (c : Connection)
      → (b : Connection) × Still c b
        × (paths (socket_pause i s c) ≡ put_socket i (record s { watch = none }) (paths b))
        × Shut b (socket_pause i s c)
  unfolding socket_pause
  socket_pause-Still i s c =
      let c₁ = assert (same_socket_state s.state SocketState.scheduled) c in
      let c₂ = assert (is_some s.watch) c₁ in
      let b = remove_watch s.watch c₂ in
      let (q, _) = remove_watch-Same s.watch c₂ in
      let (k, h) = remove_watch-Shut s.watch c₂ in
      (
        b,
        Still-trans c c₁ b (assert-Still _ c) (Still-trans c₁ c₂ b (assert-Still _ c₁) (q, k, h)),
        refl,
        (refl, refl),
      )

  pub socket_pause-Ledger :
      (i : ℕ) (s : PathSocket) (c : Connection)
      → Ledger net extra c
      → socket_at i (paths c) ≡ some s
      → Ledger net extra (socket_pause i s c)
  unfolding socket_pause
  socket_pause-Ledger i s c l at_i =
      let paused : PathSocket = record s { watch = none } in
      let (b, (p, k, h), q, (k', h')) = socket_pause-Still i s c in
      Ledger-put net extra extra i s paused c (socket_pause i s c) l at_i
        (unwatched-Owns s.state s.watch (net.fd i) s.fd (l.own i s at_i))
        (q ∙ ap (put_socket i paused) p) λ x. rw (k', h', k, h) refl

  -- The connection of a socket that was tried or scheduled has succeeded.
  pub ready_socket-Ledger :
      (b : Bool) (i : ℕ) (s : PathSocket) (c : Connection)
      → Ledger net extra c
      → socket_at i (paths c) ≡ some s
      → rank s.state ≤ 2
      → s.fd ≡ net.fd i
      → Ledger net extra (ready_socket b i s c)
  unfolding ready_socket
  ready_socket-Ledger true i s c l at_i low fd =
      let won : PathSocket = record s { state = SocketState.ready; watch = none } in
      let paused : PathSocket = record s { watch = none } in
      let c₁ = socket_pause i s c in
      live_move i paused won c₁ c₁ (put i won c₁) (socket_pause-Ledger i s c l at_i)
        (socket_at-socket_pause i s c at_i) low (omega arith) fd (refl, refl, refl) refl
        (refl, refl)
  ready_socket-Ledger false i s c l at_i low fd =
      let won : PathSocket = record s { state = SocketState.ready } in
      live_move i s won c c (put i won c) l at_i low (omega arith) fd (refl, refl, refl) refl
        (refl, refl)

  pub socket_cleanup-Ledger :
      (i : ℕ) (s : PathSocket) (c : Connection)
      → Ledger net extra c
      → socket_at i (paths c) ≡ some s
      → rank s.state ≤ 2
      → s.fd ≡ net.fd i
      → Ledger net extra (socket_cleanup i s c)
  unfolding socket_cleanup
  socket_cleanup-Ledger i s c l at_i low fd =
      let c₁ = remove_watch_if s.watch c in
      let (k, h) = remove_watch_if-Shut s.watch c in
      Ledger-put net extra extra i s closed_socket c (socket_cleanup i s c) l at_i tt
        (socket_cleanup-paths i s c)
        λ x.
          let closed = close_if_open-count x s.fd c₁ in
          let passed = close_if_open-passed s.fd c₁ in
          rw (closed, passed, k, h, fd) (omega (arith, low_done_one x (net.fd i) s.state low))
