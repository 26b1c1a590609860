-- ===== src/Sockets/Ledger/Tries.antt =====
-- The account of the descriptors through the attempts to connect to a path (lib/socket.c).
use netresolve.Prelude.{if_cases, ℕ, ℤ, ◌≤◌, ◌<◌, ◌≡◌, refl, ap, ◌∙◌, Option, some, arith}
use netresolve.Types.{SocketState, PathSocket, AddrPath}
use netresolve.Sockets.{
  Connection, Net, Errno, paths, same_socket_state, socket_at, put, assert, socket_resume,
}
use netresolve.Sockets.Connecting.{
  has_sockaddr, connect_succeeded, connect_check, connect_start, start_timeout, enable_path,
}
use netresolve.Sockets.Advance.{rank}
use netresolve.Sockets.Advance.Moves.{socket_at-put}
use netresolve.Sockets.Advance.Tries.{same_state-eq, and-left}
use netresolve.Sockets.Ledger.{Owns, Ledger, Ledger-Still, Ledger-put, no_extra}
use netresolve.Sockets.Ledger.Moves.{
  assert-Still, start_timeout-Still, socket_schedule-Ledger, socket_resume-Ledger,
  ready_socket-Ledger, socket_cleanup-Ledger,
}

own_fd-Owns :
    (x : SocketState) (w : Option ℕ) (fd : ℤ) → Owns fd (record { state = x; watch = w; fd = fd })
own_fd-Owns SocketState.none w fd = tt
own_fd-Owns SocketState.scheduled w fd = refl
own_fd-Owns SocketState.ready w fd = refl
own_fd-Owns SocketState.done w fd = tt

used_fd :
    (x : SocketState) (w : Option ℕ) (fd fd' : ℤ)
    → 0 < rank x
    → rank x ≤ 2
    → Owns fd (record { state = x; watch = w; fd = fd' })
    → fd' ≡ fd
used_fd SocketState.none w fd fd' h k own = absurd (omega arith)
used_fd SocketState.scheduled w fd fd' h k own = own
used_fd SocketState.ready w fd fd' h k own = own
used_fd SocketState.done w fd fd' h k own = absurd (omega arith)

pub scheduled_used : (x : SocketState) → x ≡ SocketState.scheduled → (0 < rank x) × (rank x ≤ 2)
scheduled_used x e = rw e (omega arith, omega arith)

module _ (net : Net) where
  -- What a function leaves in order.
  abbrev pub Keeps : (ℕ → ℕ) → (Connection → Connection) → Type 0
  Keeps extra g = (c : Connection) → Ledger net extra c → Ledger net extra (g c)

  -- A socket that is scheduled or ready has the descriptor of its path.
  pub held_fd :
      (extra : ℕ → ℕ) (i : ℕ) (s : PathSocket) (c : Connection)
      → Ledger net extra c
      → socket_at i (paths c) ≡ some s
      → 0 < rank s.state
      → rank s.state ≤ 2
      → s.fd ≡ net.fd i
  held_fd extra i s c l at_i h k = used_fd s.state s.watch (net.fd i) s.fd h k (l.own i s at_i)

  pub connect_check-Ledger :
      (pick : Connection → Connection) (i : ℕ) (s : PathSocket) (errno : Errno) (c : Connection)
      → Keeps no_extra pick
      → Ledger net no_extra c
      → socket_at i (paths c) ≡ some s
      → rank s.state ≤ 2
      → s.fd ≡ net.fd i
      → Ledger net no_extra (connect_check pick i s errno c)
  unfolding connect_check connect_succeeded
  connect_check-Ledger pick i s Errno.in_progress c good l at_i low fd =
      socket_schedule-Ledger net no_extra i s c l at_i low fd
  connect_check-Ledger pick i s Errno.success c good l at_i low fd =
      good _ (ready_socket-Ledger net no_extra _ i s c l at_i low fd)
  connect_check-Ledger pick i s Errno.other c good l at_i low fd =
      good _ (socket_cleanup-Ledger net no_extra i s c l at_i low fd)

  -- `socket` has returned a descriptor for a path that has not been tried.
  opened-Ledger :
      (i : ℕ) (s : PathSocket) (c : Connection)
      → Ledger net no_extra c
      → socket_at i (paths c) ≡ some s
      → Ledger net no_extra (put i (record s { fd = net.fd i }) c)
  opened-Ledger i s c l at_i =
      Ledger-put net no_extra no_extra i s (record s { fd = net.fd i }) c _ l at_i
        (own_fd-Owns s.state s.watch (net.fd i)) refl (λ x. refl)

  connect_start-Ledger :
      (pick : Connection → Connection) (i : ℕ) (p : AddrPath) (c : Connection)
      → Keeps no_extra pick
      → Ledger net no_extra c
      → socket_at i (paths c) ≡ some p.socket
      → p.socket.state ≡ SocketState.none
      → Ledger net no_extra (connect_start net pick i p c)
  unfolding connect_start
  connect_start-Ledger pick i p c good l at_i e =
      let c₁ = assert (same_socket_state p.socket.state SocketState.none) c in
      let still = assert-Still (same_socket_state p.socket.state SocketState.none) c in
      let l₁ = Ledger-Still net no_extra c c₁ still l in
      let at_i₁ : socket_at i (paths c₁) ≡ some p.socket = ap (socket_at i) still.0 ∙ at_i in
      let s : PathSocket = record p.socket { fd = net.fd i } in
      if_cases (Ledger net no_extra) _ c₁ (has_sockaddr p.node.family)
        (λ _.
          connect_check-Ledger pick i s (net.errno i) (put i s c₁) good
            (opened-Ledger i p.socket c₁ l₁ at_i₁) (socket_at-put i p.socket s (paths c₁) at_i₁)
            (rw e (omega arith)) refl)
        (λ _. l₁)

  pub enable_path-Ledger :
      (pick : Connection → Connection) (i : ℕ) (p : AddrPath) (c : Connection)
      → Keeps no_extra pick
      → Ledger net no_extra c
      → socket_at i (paths c) ≡ some p.socket
      → Ledger net no_extra (enable_path net pick i p c)
  unfolding enable_path
  enable_path-Ledger pick i p c good l at_i =
      let c₁ = start_timeout net c in
      let still = start_timeout-Still net c in
      let l₁ = Ledger-Still net no_extra c c₁ still l in
      let at_i₁ : socket_at i (paths c₁) ≡ some p.socket = ap (socket_at i) still.0 ∙ at_i in
      if_cases (Ledger net no_extra) _ _ (same_socket_state p.socket.state SocketState.none)
        (λ e.
          connect_start-Ledger pick i p c₁ good l₁ at_i₁
            (same_state-eq p.socket.state SocketState.none e))
        (λ _.
          if_cases (Ledger net no_extra) (socket_resume i p.socket c₁) c₁ _
            (λ e.
              let waits : p.socket.state ≡ SocketState.scheduled =
                same_state-eq p.socket.state SocketState.scheduled (and-left _ _ e) in
              let (high, low) = scheduled_used p.socket.state waits in
              socket_resume-Ledger net no_extra i p.socket c₁ l₁ at_i₁ low
                (held_fd no_extra i p.socket c₁ l₁ at_i₁ high low))
            (λ _. l₁))
