-- ===== src/Sockets/Ledger/Loops.antt =====
-- The account of the descriptors through the loops of lib/socket.c, and through
-- `pickup_connected_socket` and `enable_sockets`.
use netresolve.Prelude.{
  if_cases, if_both, ℕ, zero, suc, negsuc, ◌+◌, ◌≡◌, refl, false, Bool-cases, inl, inr, Option,
  none, some, arith, is_some, ◌&&◌, if◌then◌else◌, get_elem?, length, ◌==◌,
}
use netresolve.Types.{SocketState, PathSocket, AddrPath}
use netresolve.Sockets.{
  Connection, Net, paths, same_socket_state, socket_at, put, clear_timeouts, socket_pause,
  reads_paths,
}
use netresolve.Sockets.Connecting.{
  enable_path, skips_path, enable_round, enable_from, finish_enable, enable, find_socket, is_ready,
  is_candidate, scheduled_round, each_scheduled, pass_socket, wait_for_priority, pickup_found,
  pickup, enough, pickup_connected_socket, enable_sockets,
}
use netresolve.Sockets.Advance.Moves.{get_elem-socket}
use netresolve.Sockets.Advance.Tries.{same_state-eq}
use netresolve.Sockets.Advance.Loops.{enabled}
use netresolve.Sockets.Advance.Ends.{socket_at-found}
use netresolve.Sockets.Ledger.{
  is_fd, Ledger, Still, Ledger-Still, Ledger-put, no_extra, handed-snoc,
}
use netresolve.Sockets.Ledger.Moves.{
  clear_timeouts-Still, start_priority_timeout-Still, socket_pause-Ledger,
}
use netresolve.Sockets.Ledger.Tries.{Keeps, held_fd, enable_path-Ledger}

module _ (net : Net) where
  enable_round-Ledger :
      (pick : Connection → Connection) (rest : ℕ → ℕ → Connection → ℕ × ℕ × Connection)
      (i ip4 ip6 : ℕ) (c : Connection) (o : Option AddrPath)
      → Keeps net no_extra pick
      → ((a b : ℕ) → Keeps net no_extra (λ x. enabled (rest a b x)))
      → get_elem? (paths c) i ≡ o
      → Ledger net no_extra c
      → Ledger net no_extra (enabled (enable_round net pick rest i ip4 ip6 c o))
  unfolding enable_round
  enable_round-Ledger pick rest i ip4 ip6 c none good more e l = l
  enable_round-Ledger pick rest i ip4 ip6 c (some p) good more e l =
      let first =
        if_cases (Ledger net no_extra) c (enable_path net pick i p c) (skips_path p ip4 ip6)
          (λ _. l)
          (λ _. enable_path-Ledger net pick i p c good l (get_elem-socket i (paths c) p e)) in
      let Kept : ℕ × ℕ × Connection → Type 0 = λ r. Ledger net no_extra (enabled r) in
      if_both Kept (p.node.family == 0) _ _ l (if_both Kept _ _ _ first (more _ _ _ first))

  enable_from-Keeps :
      (pick : Connection → Connection) (n i ip4 ip6 : ℕ)
      → Keeps net no_extra pick
      → Keeps net no_extra (λ c. enabled (enable_from net pick n i ip4 ip6 c))
  unfolding enable_from
  enable_from-Keeps pick zero i ip4 ip6 good c l = l
  enable_from-Keeps pick (suc n) i ip4 ip6 good c l =
      enable_round-Ledger pick (enable_from net pick n (i + 1)) i ip4 ip6 c _ good
        (λ a b. enable_from-Keeps pick n (i + 1) a b good) refl l

  finish_enable-Ledger :
      (r : ℕ × ℕ × Connection)
      → Ledger net no_extra (enabled r)
      → Ledger net no_extra (finish_enable r)
  unfolding finish_enable
  finish_enable-Ledger (ip4, ip6, c) l =
      if_cases (Ledger net no_extra) (clear_timeouts c) c (ip4 == 0 && ip6 == 0)
        (λ _. Ledger-Still net no_extra c _ (clear_timeouts-Still c) l) (λ _. l)

  pub enable-Keeps :
      (pick : Connection → Connection)
      → Keeps net no_extra pick
      → Keeps net no_extra (enable net pick)
  unfolding enable reads_paths
  enable-Keeps pick good c l =
      let l' = Ledger-Still net no_extra c (reads_paths c) (refl, refl, refl) l in
      finish_enable-Ledger (enable_from net pick (length (paths c)) 0 0 0 (reads_paths c))
        (enable_from-Keeps pick (length (paths c)) 0 0 0 good (reads_paths c) l')

  -- What is done to one scheduled socket keeps the ledger.
  abbrev pub Serves : (ℕ → ℕ) → (ℕ → PathSocket → Connection → Connection) → Type 0
  Serves extra g =
      (i : ℕ) (s : PathSocket) (c : Connection)
      → Ledger net extra c
      → socket_at i (paths c) ≡ some s
      → s.state ≡ SocketState.scheduled
      → Ledger net extra (g i s c)

  scheduled_round-Ledger :
      (extra : ℕ → ℕ) (g : ℕ → PathSocket → Connection → Connection)
      (rest : Connection → Connection) (i : ℕ) (c : Connection) (o : Option AddrPath)
      → Serves extra g
      → Keeps net extra rest
      → get_elem? (paths c) i ≡ o
      → Ledger net extra c
      → Ledger net extra (scheduled_round g rest i c o)
  unfolding scheduled_round
  scheduled_round-Ledger extra g rest i c none work more e l = l
  scheduled_round-Ledger extra g rest i c (some p) work more e l =
      let served =
        if_cases (Ledger net extra) (g i p.socket c) c
          (same_socket_state p.socket.state SocketState.scheduled)
          (λ h.
            work i p.socket c l (get_elem-socket i (paths c) p e)
              (same_state-eq p.socket.state SocketState.scheduled h))
          (λ _. l) in
      if_cases (Ledger net extra) c _ (p.node.family == 0) (λ _. l) (λ _. more _ served)

  pub each_scheduled-Keeps :
      (extra : ℕ → ℕ) (g : ℕ → PathSocket → Connection → Connection) (n i : ℕ)
      → Serves extra g
      → Keeps net extra (each_scheduled g n i)
  unfolding each_scheduled
  each_scheduled-Keeps extra g zero i work c l = l
  each_scheduled-Keeps extra g (suc n) i work c l =
      scheduled_round-Ledger extra g (each_scheduled g n (i + 1)) i c _ work
        (each_scheduled-Keeps extra g n (i + 1) work) refl l

  -- From when its socket is done on, a descriptor is about to be handed over, until it is.
  pass_socket-Ledger :
      (i : ℕ) (s : PathSocket) (c : Connection)
      → Ledger net no_extra c
      → socket_at i (paths c) ≡ some s
      → s.state ≡ SocketState.ready
      → Ledger net no_extra (pass_socket i s c)
  unfolding pass_socket
  pass_socket-Ledger i s c l at_i e =
      let t : PathSocket = record s { state = SocketState.done; fd = negsuc 0 } in
      let extra : ℕ → ℕ = λ x. is_fd x s.fd in
      let fd : s.fd ≡ net.fd i =
        held_fd net no_extra i s c l at_i (rw e (omega arith)) (rw e (omega arith)) in
      let c₁ = put i t c in
      let l₁ =
        Ledger-put net no_extra extra i s t c c₁ l at_i tt refl (λ x. rw (e, ← fd) (omega arith)) in
      let l₂ =
        each_scheduled-Keeps extra socket_pause (length (paths c₁)) 0
          (λ j u b k at_j _. socket_pause-Ledger net extra j u b k at_j) c₁ l₁ in
      let c₂ = each_scheduled socket_pause (length (paths c₁)) 0 c₁ in
      let skip = if is_some c₂.priority_timeout then false else c₂.skip_scheduled in
      let c₃ = record c₂ { skip_scheduled = skip } in
      let l₃ = Ledger-Still net extra c₂ c₃ (refl, refl, refl) l₂ in
      let c₄ = clear_timeouts c₃ in
      let l₄ = Ledger-Still net extra c₃ c₄ (clear_timeouts-Still c₃) l₃ in
      record {
        own = l₄.own;
        balance = λ x. omega (arith, l₄.balance x, handed-snoc x i s.fd c₄.passed);
      }

  wait_for_priority-Still : (c : Connection) → Still c (wait_for_priority net c)
  unfolding wait_for_priority
  wait_for_priority-Still c = elim (Bool-cases (is_some (find_socket is_ready 0 (paths c)))) [
    | inl e ↦ rw e (start_priority_timeout-Still net c)
    | inr e ↦ rw e (refl, refl, refl)
  ]

  pickup_found-Ledger :
      (go : Connection → Connection) (o : Option (ℕ × PathSocket)) (c : Connection)
      → Keeps net no_extra go
      → find_socket (is_candidate c.skip_scheduled) 0 (paths c) ≡ o
      → Ledger net no_extra c
      → Ledger net no_extra (pickup_found net go o c)
  unfolding pickup_found
  pickup_found-Ledger go none c good e l = good c l
  pickup_found-Ledger go (some (i, s)) c good e l =
      if_cases (Ledger net no_extra) (pass_socket i s c) _ (is_ready s)
        (λ h.
          pass_socket-Ledger i s c l (socket_at-found _ i s (paths c) e)
            (same_state-eq s.state SocketState.ready h))
        (λ _. good _ (Ledger-Still net no_extra c _ (wait_for_priority-Still c) l))

  pub pickup-Keeps : (f : ℕ) → Keeps net no_extra (pickup net f)
  unfolding pickup
  pickup-Keeps zero c l = Ledger-Still net no_extra c _ (refl, refl, refl) l
  pickup-Keeps (suc f) c l =
      pickup_found-Ledger (enable net (pickup net f)) _ c
        (enable-Keeps (pickup net f) (pickup-Keeps f)) refl l

  pub pickup_connected_socket-Keeps : Keeps net no_extra (pickup_connected_socket net)
  unfolding pickup_connected_socket
  pickup_connected_socket-Keeps c l = pickup-Keeps (enough c) c l

  pub enable_sockets-Keeps : Keeps net no_extra (enable_sockets net)
  unfolding enable_sockets
  enable_sockets-Keeps c l = enable-Keeps (pickup net (enough c)) (pickup-Keeps (enough c)) c l
