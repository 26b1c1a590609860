-- ===== src/Sockets/Advance/Ends.antt =====
-- `pickup_connected_socket` and `enable_sockets` of lib/socket.c, which call each other.
use netresolve.Prelude.{
  if_cases, ℕ, ℤ, zero, suc, negsuc, ◌+◌, ◌≤◌, ◌<◌, ◌≡◌, refl, ap, ◌∙◌, Bool, true, false, Option,
  none, some, List, [], ◌∷◌, ◌++◌, arith, Bool-cases, inl, inr, get_elem?, is_some, length, ◌==◌,
  if◌then◌else◌,
}
use netresolve.Types.{SocketState, PathSocket, AddrPath}
use netresolve.Sockets.{
  Connection, Net, Errno, paths, same_socket_state, socket_at, put, assert, clear_timeouts,
  socket_pause, socket_cleanup,
}
use netresolve.Sockets.Connecting.{
  enable, find_socket, is_ready, is_candidate, each_scheduled, pass_socket, wait_for_priority,
  pickup_found, pickup, enough, pickup_connected_socket, enable_sockets, connect_check,
}
use netresolve.Sockets.Handlers.{
  connect_timeout, connect_priority_timeout, connect_next, connect_ready, ready_on,
}
use netresolve.Sockets.Advance.{
  nones, untried, IsSound, Advances, Advances-trans, Advances-same, Advances-put,
}
use netresolve.Sockets.Advance.Moves.{
  Same, assert-Same, clear_timeouts-Same, start_priority_timeout-Same, get_elem-socket,
  socket_pause-Advances, socket_cleanup-Advances,
}
use netresolve.Sockets.Advance.Tries.{Moves, Same-Advances, same_state-eq, connect_check-Advances}
use netresolve.Sockets.Advance.Loops.{Advances-refl, enable-Moves, each_scheduled-Moves}

-- The path that `find_socket` finds.
found :
    (test : PathSocket → Bool) (i j : ℕ) (s : PathSocket) (ps : List AddrPath)
    → find_socket test i ps ≡ some (j, s)
    → (k : ℕ) × (j ≡ k + i) × (socket_at k ps ≡ some s)
unfolding find_socket
found test i j s [] h = cc
found test i j s (p ∷ ps) h = elim (Bool-cases (p.node.family == 0)) [
  | inl e ↦ cc (rw e at h)
  | inr e ↦ elim (Bool-cases (test p.socket)) [
    | inl t ↦ let h' = rw (e, t) at h in let j_eq : j ≡ i = cc in (0, omega (arith, j_eq), cc)
    | inr t ↦
        let (k, j_eq, at_k) = found test (i + 1) j s ps (rw (e, t) at h) in
        (suc k, omega (arith, j_eq), at_k)
  ]
]

pub socket_at-found :
    (test : PathSocket → Bool) (i : ℕ) (s : PathSocket) (ps : List AddrPath)
    → find_socket test 0 ps ≡ some (i, s)
    → socket_at i ps ≡ some s
socket_at-found test i s ps h =
    let (k, i_eq, at_k) = found test 0 i s ps h in
    let same : i ≡ k = omega (arith, i_eq) in rw same at_k

handed-IsSound :
    (x : SocketState) (w : Option ℕ) (fd : ℤ)
    → x ≡ SocketState.ready
    → IsSound (record { state = x; watch = w; fd = fd })
    → IsSound (record { state = SocketState.done; watch = w; fd = negsuc 0 })
handed-IsSound SocketState.none w fd e h = cc
handed-IsSound SocketState.scheduled w fd e h = cc
handed-IsSound SocketState.ready w fd e h = (h, refl)
handed-IsSound SocketState.done w fd e h = cc

pass_socket-Advances :
    (f i : ℕ) (s : PathSocket) (c : Connection)
    → socket_at i (paths c) ≡ some s
    → s.state ≡ SocketState.ready
    → Advances f c (pass_socket i s c)
unfolding pass_socket
pass_socket-Advances f i s c at_i e =
    let t : PathSocket = record s { state = SocketState.done; fd = negsuc 0 } in
    let c₁ = put i t c in
    let c₂ = each_scheduled socket_pause (length (paths c₁)) 0 c₁ in
    let skip = if is_some c₂.priority_timeout then false else c₂.skip_scheduled in
    let c₃ = record c₂ { skip_scheduled = skip } in
    let c₄ = clear_timeouts c₃ in
    let c₅ = record c₄ { passed = c₄.passed ++ (i, s.fd) ∷ [] } in
    let (p, u) = clear_timeouts-Same c₃ in
    Advances-trans f c c₁ c₅
      (Advances-put f i s t c c₁ at_i (rw e (omega arith)) (handed-IsSound s.state s.watch s.fd e)
        refl refl)
      (Advances-trans f c₁ c₂ c₅
        (each_scheduled-Moves socket_pause f (length (paths c₁)) 0 (socket_pause-Advances f) c₁)
        (Advances-same f c₂ c₅ p u))

wait_for_priority-Same : (net : Net) (c : Connection) → Same c (wait_for_priority net c)
unfolding wait_for_priority
wait_for_priority-Same net c = elim (Bool-cases (is_some (find_socket is_ready 0 (paths c)))) [
  | inl e ↦ rw e (start_priority_timeout-Same net c)
  | inr e ↦ rw e (refl, refl)
]

pickup_found-Advances :
    (net : Net) (go : Connection → Connection) (f : ℕ) (o : Option (ℕ × PathSocket))
    (c : Connection)
    → Moves f go
    → find_socket (is_candidate c.skip_scheduled) 0 (paths c) ≡ o
    → Advances f c (pickup_found net go o c)
unfolding pickup_found
pickup_found-Advances net go f none c good e = good c
pickup_found-Advances net go f (some (i, s)) c good e =
    let c' = wait_for_priority net c in
    if_cases (Advances f c) (pass_socket i s c) (go c') (is_ready s)
      (λ h.
        pass_socket-Advances f i s c (socket_at-found _ i s (paths c) e)
          (same_state-eq s.state SocketState.ready h))
      (λ _.
        Advances-trans f c c' (go c') (Same-Advances f c c' (wait_for_priority-Same net c))
          (good c'))

pub pickup-Moves : (net : Net) (f : ℕ) → Moves f (pickup net f)
unfolding pickup
pickup-Moves net zero c = record {
  forward = (Advances-refl 0 c).forward;
  sound = λ h. h;
  finishes = λ n. ground (arith, n);
}
pickup-Moves net (suc f) c =
    pickup_found-Advances net (enable net (pickup net f)) (suc f) _ c
      (enable-Moves net (pickup net f) f (pickup-Moves net f)) refl

untried-le_one : (x : SocketState) → untried x ≤ 1
untried-le_one x = ground arith

nones-le : (ps : List AddrPath) → nones ps ≤ length ps
nones-le [] = omega arith
nones-le (p ∷ ps) = omega (arith, nones-le ps, untried-le_one p.socket.state)

-- With fuel enough, the fuel does not matter.
always : (f g : ℕ) (c c' : Connection) → Advances g c c' → nones (paths c) < g → Advances f c c'
always f g c c' h less = record {
  forward = h.forward;
  sound = h.sound;
  finishes = λ _. h.finishes less;
}

pub pickup_connected_socket-Moves : (net : Net) (f : ℕ) → Moves f (pickup_connected_socket net)
unfolding pickup_connected_socket
pickup_connected_socket-Moves net f c =
    always f (enough c) c (pickup_connected_socket net c) (pickup-Moves net (enough c) c)
      (omega (arith, nones-le (paths c)))

pub enable_sockets-Moves : (net : Net) (f : ℕ) → Moves f (enable_sockets net)
unfolding enable_sockets
enable_sockets-Moves net f c =
    let go = pickup net (enough c) in
    always f (suc (enough c)) c (enable_sockets net c)
      (enable-Moves net go (enough c) (pickup-Moves net (enough c)) c)
      (omega (arith, nones-le (paths c)))

pub connect_timeout-Moves : (net : Net) (f : ℕ) → Moves f (connect_timeout net)
unfolding connect_timeout
connect_timeout-Moves net f c =
    let c₁ = clear_timeouts c in
    let c₂ = each_scheduled socket_cleanup (length (paths c₁)) 0 c₁ in
    Advances-trans f c c₁ (enable_sockets net c₂) (Same-Advances f c c₁ (clear_timeouts-Same c)) (
      Advances-trans f c₁ c₂ (enable_sockets net c₂)
        (each_scheduled-Moves socket_cleanup f (length (paths c₁)) 0 (socket_cleanup-Advances f) c₁)
        (enable_sockets-Moves net f c₂))

pub connect_priority_timeout-Moves : (net : Net) (f : ℕ) → Moves f (connect_priority_timeout net)
unfolding connect_priority_timeout
connect_priority_timeout-Moves net f c =
    let c₁ = record c { skip_scheduled = true } in
    Advances-trans f c c₁ (pickup_connected_socket net c₁) (Same-Advances f c c₁ (refl, refl))
      (pickup_connected_socket-Moves net f c₁)

pub connect_next-Moves : (net : Net) (f : ℕ) → Moves f (connect_next net)
unfolding connect_next
connect_next-Moves = enable_sockets-Moves

pub connect_ready-Advances :
    (net : Net) (f i : ℕ) (errno : Errno) (p : AddrPath) (c : Connection)
    → get_elem? (paths c) i ≡ some p
    → p.socket.state ≡ SocketState.scheduled
    → Advances f c (connect_ready net i errno c)
unfolding connect_ready ready_on
connect_ready-Advances net f i errno p c e h =
    let c₁ = assert (same_socket_state p.socket.state SocketState.scheduled) c in
    let c₂ = assert (is_some p.socket.watch) c₁ in
    let (same₁, u₁) = assert-Same (same_socket_state p.socket.state SocketState.scheduled) c in
    let (same₂, u₂) = assert-Same (is_some p.socket.watch) c₁ in
    let same : paths c₂ ≡ paths c = same₂ ∙ same₁ in
    let pick = pickup_connected_socket net in
    rw e (
      Advances-trans f c c₂ (connect_check pick i p.socket errno c₂)
        (Advances-same f c c₂ same (u₂ ∙ u₁))
        (connect_check-Advances pick f i p.socket errno c₂
          (ap (socket_at i) same ∙ get_elem-socket i (paths c) p e) (rw h (omega arith))
          (λ c' (adv, _).
            Advances-trans f c₂ c' (pick c') adv (pickup_connected_socket-Moves net f c'))))
