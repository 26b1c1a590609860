-- ===== src/Sockets/Advance/Loops.antt =====
-- How the loops of lib/socket.c change the sockets, and the fuel that they take.
use netresolve.Prelude.{
  if_cases, if_both, ℕ, zero, suc, ◌+◌, ◌≡◌, refl, Bool, Option, none, some, get_elem?, ◌&&◌,
  length, ◌==◌, if◌then◌else◌,
}
use netresolve.Types.{SocketState, PathSocket, AddrPath}
use netresolve.Sockets.{
  Connection, Net, paths, same_socket_state, socket_at, clear_timeouts, reads_paths,
}
use netresolve.Sockets.Connecting.{
  enable_path, enable_round, enable_from, finish_enable, enable, scheduled_round, each_scheduled,
  skips_path,
}
use netresolve.Sockets.Advance.{Advances, Advances-trans}
use netresolve.Sockets.Advance.Moves.{clear_timeouts-Same, get_elem-socket}
use netresolve.Sockets.Advance.Tries.{Moves, Same-Advances, enable_path-Advances}

pub Advances-refl : (f : ℕ) (c : Connection) → Advances f c c
Advances-refl f c = Same-Advances f c c (refl, refl)

round-Advances :
    (net : Net) (pick : Connection → Connection) (f i : ℕ) (p : AddrPath) (c : Connection)
    (b : Bool)
    → Moves f pick
    → get_elem? (paths c) i ≡ some p
    → Advances (suc f) c (if b then c else enable_path net pick i p c)
round-Advances net pick f i p c b good e =
    if_cases (Advances (suc f) c) c (enable_path net pick i p c) b (λ _. Advances-refl (suc f) c)
      (λ _. enable_path-Advances net pick f i p c good (get_elem-socket i (paths c) p e))

-- The connection behind the loop.
abbrev pub enabled : ℕ × ℕ × Connection → Connection
enabled (_, _, c) = c

enable_round-Advances :
    (net : Net) (pick : Connection → Connection) (rest : ℕ → ℕ → Connection → ℕ × ℕ × Connection)
    (f i ip4 ip6 : ℕ) (c : Connection) (o : Option AddrPath)
    → Moves f pick
    → ((a b : ℕ) → Moves (suc f) (λ x. enabled (rest a b x)))
    → get_elem? (paths c) i ≡ o
    → Advances (suc f) c (enabled (enable_round net pick rest i ip4 ip6 c o))
unfolding enable_round
enable_round-Advances net pick rest f i ip4 ip6 c none good more e = Advances-refl (suc f) c
enable_round-Advances net pick rest f i ip4 ip6 c (some p) good more e =
    let skipped = skips_path p ip4 ip6 in
    let c' = if skipped then c else enable_path net pick i p c in
    let first = round-Advances net pick f i p c skipped good e in
    let Reached : ℕ × ℕ × Connection → Type 0 = λ r. Advances (suc f) c (enabled r) in
    if_both Reached (p.node.family == 0) _ _ (Advances-refl (suc f) c)
      (if_both Reached _ _ _ first (Advances-trans (suc f) c c' _ first (more _ _ c')))

enable_from-Moves :
    (net : Net) (pick : Connection → Connection) (f n i ip4 ip6 : ℕ)
    → Moves f pick
    → Moves (suc f) (λ c. enabled (enable_from net pick n i ip4 ip6 c))
unfolding enable_from
enable_from-Moves net pick f zero i ip4 ip6 good c = Advances-refl (suc f) c
enable_from-Moves net pick f (suc n) i ip4 ip6 good c =
    enable_round-Advances net pick (enable_from net pick n (i + 1)) f i ip4 ip6 c _ good
      (λ a b. enable_from-Moves net pick f n (i + 1) a b good) refl

finish_enable-Moves : (f : ℕ) (r : ℕ × ℕ × Connection) → Advances f (enabled r) (finish_enable r)
unfolding finish_enable
finish_enable-Moves f (ip4, ip6, c) =
    if_cases (Advances f c) (clear_timeouts c) c (ip4 == 0 && ip6 == 0)
      (λ _. Same-Advances f c (clear_timeouts c) (clear_timeouts-Same c)) (λ _. Advances-refl f c)

pub enable-Moves :
    (net : Net) (pick : Connection → Connection) (f : ℕ)
    → Moves f pick
    → Moves (suc f) (enable net pick)
unfolding enable reads_paths
enable-Moves net pick f good c =
    let c' = reads_paths c in
    let r = enable_from net pick (length (paths c)) 0 0 0 c' in
    Advances-trans (suc f) c c' (finish_enable r) (Same-Advances (suc f) c c' (refl, refl)) (
      Advances-trans (suc f) c' (enabled r) (finish_enable r)
        (enable_from-Moves net pick f (length (paths c)) 0 0 0 good c')
        (finish_enable-Moves (suc f) r))

-- What is done to one scheduled socket.
abbrev pub Works : ℕ → (ℕ → PathSocket → Connection → Connection) → Type 0
Works f g =
    (i : ℕ) (s : PathSocket) (c : Connection)
    → socket_at i (paths c) ≡ some s
    → Advances f c (g i s c)

scheduled_round-Advances :
    (g : ℕ → PathSocket → Connection → Connection) (rest : Connection → Connection) (f i : ℕ)
    (c : Connection) (o : Option AddrPath)
    → Works f g
    → Moves f rest
    → get_elem? (paths c) i ≡ o
    → Advances f c (scheduled_round g rest i c o)
unfolding scheduled_round
scheduled_round-Advances g rest f i c none work more e = Advances-refl f c
scheduled_round-Advances g rest f i c (some p) work more e =
    let c' = if same_socket_state p.socket.state SocketState.scheduled then g i p.socket c else c in
    if_cases (Advances f c) c (rest c') (p.node.family == 0) (λ _. Advances-refl f c)
      (λ _.
        Advances-trans f c c' (rest c')
          (if_cases (Advances f c) (g i p.socket c) c
            (same_socket_state p.socket.state SocketState.scheduled)
            (λ _. work i p.socket c (get_elem-socket i (paths c) p e)) (λ _. Advances-refl f c))
          (more c'))

pub each_scheduled-Moves :
    (g : ℕ → PathSocket → Connection → Connection) (f n i : ℕ)
    → Works f g
    → Moves f (each_scheduled g n i)
unfolding each_scheduled
each_scheduled-Moves g f zero i work c = Advances-refl f c
each_scheduled-Moves g f (suc n) i work c =
    scheduled_round-Advances g (each_scheduled g n (i + 1)) f i c _ work
      (each_scheduled-Moves g f n (i + 1) work) refl
