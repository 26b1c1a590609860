-- ===== src/Sockets/Ledger/Giving.antt =====
-- The descriptors of a connection of lib/socket.c that were closed or handed over.
use netresolve.Prelude.{
  ℕ, ℤ, zero, suc, pos, negsuc, ◌+◌, ◌≤◌, ◌<◌, ◌≡◌, refl, ap, ◌∙◌, ◌⊎◌, inl, inr, some, List, [],
  ◌∷◌, true, All, arith, get_elem?, Bool-cases, ◌==◌, is_some, length,
}
use mathlib.Core.Path.{subst}
use netresolve.Types.{SocketState, PathSocket, AddrPath}
use netresolve.Sockets.{
  Connection, Net, Errno, paths, same_socket_state, socket_at, assert, clear_timeouts,
  socket_cleanup,
}
use netresolve.Sockets.Connecting.{pickup_connected_socket}
use netresolve.Sockets.Handlers.{
  ready_on, connect_ready, connect_timeout, connect_priority_timeout, set_fds, connect_prepare,
  connect_next,
}
use netresolve.Sockets.Advance.Moves.{get_elem-socket}
use netresolve.Sockets.Events.{Event, Events, IsFresh, unopened}
use netresolve.Sockets.Ledger.{
  is_fd, count, handed, done_one, done_count, Owns, Ledger, Ledger-Still, no_extra,
}
use netresolve.Sockets.Ledger.Moves.{
  Still-trans, assert-Still, clear_timeouts-Still, socket_cleanup-Ledger,
}
use netresolve.Sockets.Ledger.Tries.{scheduled_used, Keeps, held_fd, connect_check-Ledger}
use netresolve.Sockets.Listening.{connect_free}
use netresolve.Sockets.Ledger.Release.{used_count, connect_free-used}
use netresolve.Sockets.Ledger.Loops.{
  each_scheduled-Keeps, pickup_connected_socket-Keeps, enable_sockets-Keeps,
}

module _ (net : Net) where
  connect_timeout-Keeps : Keeps net no_extra (connect_timeout net)
  unfolding connect_timeout
  connect_timeout-Keeps c l =
      let c₁ = clear_timeouts c in
      enable_sockets-Keeps net _ (
        each_scheduled-Keeps net no_extra socket_cleanup (length (paths c₁)) 0
          (λ i s b k at_i waits.
            let (high, low) = scheduled_used s.state waits in
            socket_cleanup-Ledger net no_extra i s b k at_i low
              (held_fd net no_extra i s b k at_i high low))
          c₁ (Ledger-Still net no_extra c c₁ (clear_timeouts-Still c) l))

  connect_ready-Ledger :
      (i : ℕ) (errno : Errno) (p : AddrPath) (c : Connection)
      → get_elem? (paths c) i ≡ some p
      → p.socket.state ≡ SocketState.scheduled
      → Ledger net no_extra c
      → Ledger net no_extra (connect_ready net i errno c)
  unfolding connect_ready ready_on
  connect_ready-Ledger i errno p c e waits l =
      let c₁ = assert (same_socket_state p.socket.state SocketState.scheduled) c in
      let c₂ = assert (is_some p.socket.watch) c₁ in
      let still = Still-trans c c₁ c₂ (assert-Still _ c) (assert-Still _ c₁) in
      let l₂ = Ledger-Still net no_extra c c₂ still l in
      let at_i = ap (socket_at i) (still.0) ∙ get_elem-socket i (paths c) p e in
      let (high, low) = scheduled_used p.socket.state waits in
      rw e (
        connect_check-Ledger net (pickup_connected_socket net) i p.socket errno c₂
          (pickup_connected_socket-Keeps net) l₂ at_i low
          (held_fd net no_extra i p.socket c₂ l₂ at_i high low))

  Event-Ledger : (a b : Connection) → Event net a b → Ledger net no_extra a → Ledger net no_extra b
  unfolding connect_next connect_priority_timeout
  Event-Ledger _ _ (Event.next c) l = enable_sockets-Keeps net c l
  Event-Ledger _ _ (Event.timeout c) l = connect_timeout-Keeps c l
  Event-Ledger _ _ (Event.priority_timeout c) l =
      let c₁ = record c { skip_scheduled = true } in
      pickup_connected_socket-Keeps net c₁ (Ledger-Still net no_extra c c₁ (refl, refl, refl) l)
  Event-Ledger _ _ (Event.ready i errno p c e h) l = connect_ready-Ledger i errno p c e h l

  Events-Ledger :
      (a b : Connection) → Events net a b → Ledger net no_extra a → Ledger net no_extra b
  Events-Ledger _ _ (Events.stop c) l = l
  Events-Ledger _ _ (Events.more a b c e es) l = Events-Ledger b c es (Event-Ledger a b e l)

-- No socket was tried.
abbrev IsIdle : List AddrPath → Type 0
IsIdle = All (λ p. p.socket.state ≡ SocketState.none)

fresh-IsIdle : (ps : List AddrPath) → IsFresh ps → IsIdle ps
fresh-IsIdle [] h = tt
fresh-IsIdle (p ∷ ps) (e, h) = (ap (λ s. s.state) e, fresh-IsIdle ps h)

set_fds-IsIdle : (ps : List AddrPath) → IsIdle ps → IsIdle (set_fds ps)
unfolding set_fds
set_fds-IsIdle [] h = tt
set_fds-IsIdle (p ∷ ps) (e, h) = elim (Bool-cases (p.node.family == 0)) [
  | inl k ↦ rw k (e, h)
  | inr k ↦ rw k (e, set_fds-IsIdle ps h)
]

idle_count :
    (x : ℕ) (fd : ℕ → ℤ) (k : ℕ) (ps : List AddrPath) → IsIdle ps → done_count x fd k ps ≡ 0
idle_count x fd k [] h = refl
idle_count x fd k (p ∷ ps) (e, h) = rw e (omega (arith, idle_count x fd (suc k) ps h))

idle_own :
    (fd : ℤ) (i : ℕ) (s : PathSocket) (ps : List AddrPath)
    → IsIdle ps
    → socket_at i ps ≡ some s
    → Owns fd s
idle_own fd i s [] h k = cc
idle_own fd zero s (p ∷ ps) (e, h) k =
    let same : p.socket ≡ s = cc in subst (Owns fd) same (rw e tt)
idle_own fd (suc i) s (p ∷ ps) (e, h) k = idle_own fd i s ps h k

-- No path was tried, and no descriptor was closed or handed over.
pub record IsUnused (c : Connection) : Type 0 where
  pub fresh : IsFresh (paths c)
  pub none_closed : c.closed ≡ []
  pub none_passed : c.passed ≡ []

prepared-Ledger :
    (net : Net) (c : Connection) → IsUnused c → Ledger net no_extra (connect_prepare net c)
unfolding connect_prepare
prepared-Ledger net c u =
    let idle = set_fds-IsIdle (paths c) (fresh-IsIdle (paths c) u.fresh) in
    enable_sockets-Keeps net (unopened c) (record {
      own = λ i s e. idle_own (net.fd i) i s (set_fds (paths c)) idle e;
      balance = λ x.
          rw (u.none_closed, u.none_passed, idle_count x net.fd 0 (set_fds (paths c)) idle) refl;
    })

-- No two paths get the same descriptor.
abbrev AreDistinct : (ℕ → ℤ) → Type 0
AreDistinct fd = (i j n : ℕ) → fd i ≡ pos n → fd j ≡ pos n → i ≡ j

is_fd_cases : (x : ℕ) (fd : ℤ) → (is_fd x fd ≡ 0) ⊎ (fd ≡ pos x)
is_fd_cases x (pos n) = elim (Bool-cases (n == x)) [
  | inl e ↦ inr (ap pos (ground arith))
  | inr e ↦ inl (rw e refl)
]
is_fd_cases x (negsuc n) = inl refl

done_one-le : (x : ℕ) (fd : ℤ) (s : SocketState) → done_one x fd s ≤ is_fd x fd
done_one-le x fd s = ground arith

none_behind :
    (x : ℕ) (fd : ℕ → ℤ) (j k : ℕ) (ps : List AddrPath)
    → AreDistinct fd
    → fd j ≡ pos x
    → j < k
    → done_count x fd k ps ≡ 0
none_behind x fd j k [] d e h = refl
none_behind x fd j k (p ∷ ps) d e h = elim (is_fd_cases x (fd k)) [
  | inl z ↦ omega (
    arith,
    z,
    done_one-le x (fd k) p.socket.state,
    none_behind x fd j (suc k) ps d e (omega (arith, h)),
  )
  | inr same ↦ absurd (omega (arith, h, d j k x e same))
]

is_fd-le_one : (x : ℕ) (fd : ℤ) → is_fd x fd ≤ 1
is_fd-le_one x fd = ground arith

done_count-le_one :
    (x : ℕ) (fd : ℕ → ℤ) (k : ℕ) (ps : List AddrPath) → AreDistinct fd → done_count x fd k ps ≤ 1
done_count-le_one x fd k [] d = omega arith
done_count-le_one x fd k (p ∷ ps) d = elim (is_fd_cases x (fd k)) [
  | inl z ↦
      omega (arith, z, done_one-le x (fd k) p.socket.state, done_count-le_one x fd (suc k) ps d)
  | inr same ↦ omega (
    arith,
    is_fd-le_one x (fd k),
    done_one-le x (fd k) p.socket.state,
    none_behind x fd k (suc k) ps d same (omega arith),
  )
]

-- From `connect_prepare` on sockets that were not used, through any sequence of calls and events, every
-- socket that is scheduled or ready holds the descriptor that `socket` returned for its path, and the
-- descriptors that were closed or handed over are just those of the paths that are done, each as often
-- as `socket` returned it for one of them. Behind `netresolve_connect_free` none is left over: each that
-- `socket` returned for a path before the end that was tried was closed or handed over, at least as
-- often.
pub connect-Ledger :
    (net : Net) (c c' : Connection)
    → IsUnused c
    → Events net (connect_prepare net c) c'
    → Ledger net no_extra c'
      × ((x : ℕ)
          → used_count x net.fd 0 (paths c')
            ≤ count x (connect_free c').closed + handed x c'.passed)
connect-Ledger net c c' unused es =
    let l = Events-Ledger net (connect_prepare net c) c' es (prepared-Ledger net c unused) in
    (l, connect_free-used net c' l)

-- If moreover no two paths get the same descriptor, none is closed twice, or handed over twice, or
-- closed and handed over.
connect-once :
    (net : Net) (c c' : Connection)
    → AreDistinct net.fd
    → IsUnused c
    → Events net (connect_prepare net c) c'
    → (x : ℕ) → count x c'.closed + handed x c'.passed ≤ 1
connect-once net c c' distinct unused es x =
    let (l, _) = connect-Ledger net c c' unused es in
    omega (arith, l.balance x, done_count-le_one x net.fd 0 (paths c') distinct)
