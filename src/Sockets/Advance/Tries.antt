-- ===== src/Sockets/Advance/Tries.antt =====
-- How what lib/socket.c does for one path, and what follows it, changes the sockets.
use netresolve.Prelude.{
  if_cases, ℕ, ℤ, zero, suc, ◌≤◌, ◌<◌, ◌≡◌, refl, ap, ◌∙◌, Bool, true, false, Option, none, some,
  List, [], ◌∷◌, arith, is_some, not, ◌&&◌, if◌then◌else◌,
}
use netresolve.Types.{SocketState, PathSocket, AddrPath}
use netresolve.Sockets.{
  Connection, Net, Errno, paths, same_socket_state, socket_at, put_socket, put, assert,
  socket_pause, socket_resume, closed_socket, socket_cleanup,
}
use netresolve.Sockets.Connecting.{
  ready_socket, has_sockaddr, connect_succeeded, connect_check, connect_start, enable_path,
  start_timeout,
}
use netresolve.Sockets.Advance.{
  rank, nones, IsSound, Forward-trans, nones-put_socket, Advances, Advances-trans, Advances-same,
  Advances-put,
}
use netresolve.Sockets.Advance.Moves.{
  Same, assert-Same, start_timeout-Same, socket_at-put, socket_schedule-Advances,
  socket_resume-Advances, socket_pause-Advances, socket_at-socket_pause, socket_cleanup-paths,
  socket_cleanup-Advances,
}

abbrev pub Moves : ℕ → (Connection → Connection) → Type 0
Moves f g = (c : Connection) → Advances f c (g c)

-- A step that tries a path, followed by one that is good for one path less.
pub Advances-spend :
    (f : ℕ) (a b c : Connection)
    → Advances (suc f) a b
    → nones (paths b) < nones (paths a)
    → Advances f b c
    → Advances (suc f) a c
Advances-spend f a b c h less k = record {
  forward = Forward-trans (paths a) (paths b) (paths c) h.forward k.forward;
  sound = λ s. k.sound (h.sound s);
  finishes = λ n. k.finishes (omega (arith, n, less)) ∙ h.finishes n;
}

pub Same-Advances : (f : ℕ) (c c' : Connection) → Same c c' → Advances f c c'
Same-Advances f c c' (p, u) = Advances-same f c c' p u

pub same_state-eq : (x y : SocketState) → same_socket_state x y ≡ true → x ≡ y
same_state-eq x y h = ground arith

low_state :
    (x : SocketState)
    → rank x ≤ 1
    → same_socket_state x SocketState.scheduled ≡ false
    → x ≡ SocketState.none
low_state x h k = ground arith

put_socket-put_socket :
    (i : ℕ) (s t : PathSocket) (ps : List AddrPath)
    → put_socket i t (put_socket i s ps) ≡ put_socket i t ps
put_socket-put_socket i s t [] = refl
put_socket-put_socket zero s t (p ∷ ps) = refl
put_socket-put_socket (suc i) s t (p ∷ ps) = ap (p ∷◌) (put_socket-put_socket i s t ps)

ready-IsSound :
    (x : SocketState) (w : Option ℕ) (fd : ℤ)
    → x ≡ SocketState.none
    → IsSound (record { state = x; watch = w; fd = fd })
    → IsSound (record { state = SocketState.ready; watch = w; fd = fd })
ready-IsSound SocketState.none w fd e h = h
ready-IsSound SocketState.scheduled w fd e h = cc
ready-IsSound SocketState.ready w fd e h = cc
ready-IsSound SocketState.done w fd e h = cc

ready_socket-Advances :
    (b : Bool) (f i : ℕ) (s : PathSocket) (c : Connection)
    → socket_at i (paths c) ≡ some s
    → rank s.state ≤ 1
    → same_socket_state s.state SocketState.scheduled ≡ b
    → Advances f c (ready_socket b i s c)
unfolding ready_socket
ready_socket-Advances true f i s c at_i low e =
    let c₁ = socket_pause i s c in
    let won : PathSocket = record s { state = SocketState.ready; watch = none } in
    Advances-trans f c c₁ (put i won c₁) (socket_pause-Advances f i s c at_i) (
      Advances-put f i (record s { watch = none }) won c₁ (put i won c₁)
        (socket_at-socket_pause i s c at_i) (omega (arith, low)) (λ h. refl) refl refl)
ready_socket-Advances false f i s c at_i low e =
    let won : PathSocket = record s { state = SocketState.ready } in
    Advances-put f i s won c (put i won c) at_i (omega (arith, low))
      (ready-IsSound s.state s.watch s.fd (low_state s.state low e)) refl refl

-- What a step must leave for the step behind it: it comes from `c`, with a path less to be tried if
-- the socket `s` had not been.
abbrev pub Leaves : ℕ → PathSocket → Connection → Connection → Type 0
Leaves g s c c' =
    Advances g c c' × (s.state ≡ SocketState.none → nones (paths c') < nones (paths c))

ready_socket-spends :
    (b : Bool) (i : ℕ) (s : PathSocket) (c : Connection)
    → socket_at i (paths c) ≡ some s
    → same_socket_state s.state SocketState.scheduled ≡ b
    → s.state ≡ SocketState.none
    → nones (paths (ready_socket b i s c)) < nones (paths c)
unfolding ready_socket
ready_socket-spends true i s c at_i e h = cc (e, h)
ready_socket-spends false i s c at_i e h = nones-put_socket i s _ (paths c) at_i h (omega arith)

pub connect_check-Advances :
    (pick : Connection → Connection) (g i : ℕ) (s : PathSocket) (errno : Errno) (c : Connection)
    → socket_at i (paths c) ≡ some s
    → rank s.state ≤ 1
    → ((c' : Connection) → Leaves g s c c' → Advances g c (pick c'))
    → Advances g c (connect_check pick i s errno c)
unfolding connect_check connect_succeeded
connect_check-Advances pick g i s Errno.in_progress c at_i low go =
    socket_schedule-Advances g i s c at_i low
connect_check-Advances pick g i s Errno.success c at_i low go =
    go (connect_succeeded i s c)
      (ready_socket-Advances _ g i s c at_i low refl, ready_socket-spends _ i s c at_i refl)
connect_check-Advances pick g i s Errno.other c at_i low go = go (socket_cleanup i s c) (
  socket_cleanup-Advances g i s c at_i,
  λ h.
      rw (socket_cleanup-paths i s c)
        (nones-put_socket i s closed_socket (paths c) at_i h (omega arith)),
)

-- What follows a step that tried a path has one path less to try.
after_try :
    (pick : Connection → Connection) (f : ℕ) (s : PathSocket) (c c' : Connection)
    → Moves f pick
    → s.state ≡ SocketState.none
    → Leaves (suc f) s c c'
    → Advances (suc f) c (pick c')
after_try pick f s c c' good e (adv, less) = Advances-spend f c c' (pick c') adv (less e) (good c')

abbrev opened : Net → ℕ → PathSocket → PathSocket
opened net i s = record s { fd = net.fd i }

opened-IsSound :
    (x : SocketState) (w : Option ℕ) (fd fd' : ℤ)
    → x ≡ SocketState.none
    → IsSound (record { state = x; watch = w; fd = fd })
    → IsSound (record { state = x; watch = w; fd = fd' })
opened-IsSound SocketState.none w fd fd' e h = h
opened-IsSound SocketState.scheduled w fd fd' e h = cc
opened-IsSound SocketState.ready w fd fd' e h = cc
opened-IsSound SocketState.done w fd fd' e h = cc

-- The part of `connect_start` for a path with an address.
opened-Advances :
    (net : Net) (pick : Connection → Connection) (f i : ℕ) (s : PathSocket) (c : Connection)
    → Moves f pick
    → socket_at i (paths c) ≡ some s
    → s.state ≡ SocketState.none
    → Advances
        (suc f)
        c
        (connect_check pick i (opened net i s) (net.errno i) (put i (opened net i s) c))
opened-Advances net pick f i s c good at_i e =
    let t = opened net i s in
    let c₁ = put i t c in
    Advances-trans (suc f) c c₁ (connect_check pick i t (net.errno i) c₁)
      (Advances-put (suc f) i s t c c₁ at_i (omega arith)
        (opened-IsSound s.state s.watch s.fd t.fd e) refl refl)
      (connect_check-Advances pick (suc f) i t (net.errno i) c₁ (socket_at-put i s t (paths c) at_i)
        (rw e (omega arith)) (λ c'. after_try pick f t c₁ c' good e))

connect_start-Advances :
    (net : Net) (pick : Connection → Connection) (f i : ℕ) (p : AddrPath) (c : Connection)
    → Moves f pick
    → socket_at i (paths c) ≡ some p.socket
    → p.socket.state ≡ SocketState.none
    → Advances (suc f) c (connect_start net pick i p c)
unfolding connect_start
connect_start-Advances net pick f i p c good at_i e =
    let c₁ = assert (same_socket_state p.socket.state SocketState.none) c in
    let (same, u) = assert-Same (same_socket_state p.socket.state SocketState.none) c in
    let first = Same-Advances (suc f) c c₁ (same, u) in
    let s = opened net i p.socket in
    let tried = connect_check pick i s (net.errno i) (put i s c₁) in
    if_cases (Advances (suc f) c) tried c₁ (has_sockaddr p.node.family)
      (λ k.
        Advances-trans (suc f) c c₁ tried first
          (opened-Advances net pick f i p.socket c₁ good (ap (socket_at i) same ∙ at_i) e))
      (λ k. first)

scheduled-low : (x : SocketState) → same_socket_state x SocketState.scheduled ≡ true → rank x ≤ 1
scheduled-low x h = ground arith

pub and-left : (a b : Bool) → (a && b) ≡ true → a ≡ true
and-left a b h = ground arith

pub enable_path-Advances :
    (net : Net) (pick : Connection → Connection) (f i : ℕ) (p : AddrPath) (c : Connection)
    → Moves f pick
    → socket_at i (paths c) ≡ some p.socket
    → Advances (suc f) c (enable_path net pick i p c)
unfolding enable_path
enable_path-Advances net pick f i p c good at_i =
    let c₁ = start_timeout net c in
    let (same, u) = start_timeout-Same net c in
    let first = Same-Advances (suc f) c c₁ (same, u) in
    let at_i₁ : socket_at i (paths c₁) ≡ some p.socket = ap (socket_at i) same ∙ at_i in
    let behind : (x : Connection) → Advances (suc f) c₁ x → Advances (suc f) c x =
      λ x h. Advances-trans (suc f) c c₁ x first h in
    let resumed = socket_resume i p.socket c₁ in
    let waits =
      same_socket_state p.socket.state SocketState.scheduled && not (is_some p.socket.watch) in
    if_cases (Advances (suc f) c) (connect_start net pick i p c₁) (if waits then resumed else c₁)
      (same_socket_state p.socket.state SocketState.none)
      (λ e. behind (connect_start net pick i p c₁) (
        connect_start-Advances net pick f i p c₁ good at_i₁
          (same_state-eq p.socket.state SocketState.none e)))
      (λ _.
        if_cases (Advances (suc f) c) resumed c₁ waits
          (λ e. behind resumed (
            socket_resume-Advances (suc f) i p.socket c₁ at_i₁
              (scheduled-low p.socket.state (and-left _ _ e))))
          (λ _. first))
