-- ===== src/Sockets/Connecting.antt =====
-- lib/socket.c: the attempts to connect, the timeouts, and handing a connected socket over.
use netresolve.Prelude.{
  ℕ, zero, suc, negsuc, ◌+◌, Bool, true, false, not, ◌&&◌, ◌||◌, Option, none, some, List, [], ◌∷◌,
  ◌++◌, get_elem?, length, ◌==◌, if◌then◌else◌, is_some,
}
use netresolve.Types.{SocketState, PathSocket, AddrPath}
use netresolve.Types.Af
use netresolve.Query.{WatchCallback}
use netresolve.Watch.{timeout_add}
use netresolve.Sockets.{
  Connection, Errno, Net, paths, same_socket_state, put, assert, clear_timeouts, socket_schedule,
  socket_pause, socket_resume, socket_cleanup, reads_paths,
}

-- the part of `connect_check` for a connection that has succeeded, by whether it was scheduled
unfoldable pub ready_socket : Bool → ℕ → PathSocket → Connection → Connection
unfolding socket_pause
ready_socket true i s c =
    put i (record s { state = SocketState.ready; watch = none }) (socket_pause i s c)
ready_socket false i s c = put i (record s { state = SocketState.ready }) c

unfoldable pub connect_succeeded : ℕ → PathSocket → Connection → Connection
unfolding ready_socket
connect_succeeded i s c = ready_socket (same_socket_state s.state SocketState.scheduled) i s c

-- `connect_check`; `pick` is `pickup_connected_socket`
unfoldable pub connect_check :
    (Connection → Connection) → ℕ → PathSocket → Errno → Connection → Connection
unfolding socket_schedule connect_succeeded socket_cleanup
connect_check pick i s Errno.in_progress c = socket_schedule i s c
connect_check pick i s Errno.success c = pick (connect_succeeded i s c)
connect_check pick i s Errno.other c = pick (socket_cleanup i s c)

-- whether `netresolve_query_get_sockaddr` returns an address
abbrev pub has_sockaddr : ℕ → Bool
has_sockaddr family = family == Af.inet || family == Af.inet6

-- `connect_start`
unfoldable pub connect_start :
    Net → (Connection → Connection) → ℕ → AddrPath → Connection → Connection
unfolding connect_check
connect_start net pick i p c =
    let s = record p.socket { fd = net.fd i } in
    let c₁ = assert (same_socket_state p.socket.state SocketState.none) c in
    if has_sockaddr p.node.family then connect_check pick i s (net.errno i) (put i s c₁) else c₁

unfoldable pub start_timeout : Net → Connection → Connection
unfolding timeout_add
start_timeout net c =
    let (timeout, query) = timeout_add net.env (WatchCallback.plugin 0) c.query in
    if is_some c.timeout then c else record c { query = query; timeout = timeout }

-- the round of `enable_sockets` for a path that is not skipped
unfoldable pub enable_path :
    Net → (Connection → Connection) → ℕ → AddrPath → Connection → Connection
unfolding start_timeout connect_start socket_resume
enable_path net pick i p c =
    let c₁ = start_timeout net c in
    if same_socket_state p.socket.state SocketState.none
    then connect_start net pick i p c₁
    else if same_socket_state p.socket.state SocketState.scheduled && not (is_some p.socket.watch)
    then socket_resume i p.socket c₁
    else c₁

abbrev pub count_if : Bool → ℕ → ℕ
count_if b n = if b then n + 1 else n

-- whether `enable_sockets` skips a path, with the numbers of those of its family seen before
abbrev pub skips_path : AddrPath → ℕ → ℕ → Bool
skips_path p ip4 ip6 =
    same_socket_state p.socket.state SocketState.done
    || p.node.family == Af.inet && not (ip4 == 0)
    || p.node.family == Af.inet6 && not (ip6 == 0)

-- The round of `enable_sockets` for the path of number `i`, if there is one. What it starts may
-- change the paths behind, so each is read when it is reached; `rest` is the loop over those.
unfoldable pub enable_round :
    Net
    → (Connection → Connection)
    → (ℕ → ℕ → Connection → ℕ × ℕ × Connection)
    → ℕ
    → ℕ
    → ℕ
    → Connection
    → Option AddrPath
    → ℕ × ℕ × Connection
unfolding enable_path
enable_round net pick rest i ip4 ip6 c none = (ip4, ip6, c)
enable_round net pick rest i ip4 ip6 c (some p) =
    let live = not (same_socket_state p.socket.state SocketState.done) in
    let ip4' = count_if (live && p.node.family == Af.inet) ip4 in
    let ip6' = count_if (live && p.node.family == Af.inet6) ip6 in
    let skipped = skips_path p ip4 ip6 in
    let c' = if skipped then c else enable_path net pick i p c in
    if p.node.family == 0
    then (ip4, ip6, c)
    else if not skipped && c'.sequential_connect
    then (ip4', ip6', c')
    else rest ip4' ip6' c'

-- The loop of `enable_sockets` over `n` paths from the one of number `i` on.
unfoldable pub enable_from :
    Net → (Connection → Connection) → ℕ → ℕ → ℕ → ℕ → Connection → ℕ × ℕ × Connection
unfolding enable_round
enable_from net pick zero i ip4 ip6 c = (ip4, ip6, c)
enable_from net pick (suc n) i ip4 ip6 c =
    enable_round net pick (enable_from net pick n (i + 1)) i ip4 ip6 c (get_elem? (paths c) i)

unfoldable pub finish_enable : ℕ × ℕ × Connection → Connection
unfolding clear_timeouts
finish_enable (ip4, ip6, c) = if ip4 == 0 && ip6 == 0 then clear_timeouts c else c

-- `enable_sockets`
unfoldable pub enable : Net → (Connection → Connection) → Connection → Connection
unfolding enable_from finish_enable reads_paths
enable net pick c = finish_enable (enable_from net pick (length (paths c)) 0 0 0 (reads_paths c))

-- The first path, with its number, whose socket satisfies a test.
unfoldable pub find_socket : (PathSocket → Bool) → ℕ → List AddrPath → Option (ℕ × PathSocket)
find_socket test i [] = none
find_socket test i (p ∷ ps) =
    let rest = find_socket test (i + 1) ps in
    if p.node.family == 0 then none else if test p.socket then some (i, p.socket) else rest

abbrev pub is_ready : PathSocket → Bool
is_ready s = same_socket_state s.state SocketState.ready

abbrev pub is_candidate : Bool → PathSocket → Bool
is_candidate skip_scheduled s =
    same_socket_state s.state SocketState.scheduled && not skip_scheduled || is_ready s

unfoldable pub scheduled_round :
    (ℕ → PathSocket → Connection → Connection)
    → (Connection → Connection)
    → ℕ
    → Connection
    → Option AddrPath
    → Connection
scheduled_round f rest i c none = c
scheduled_round f rest i c (some p) =
    if p.node.family == 0
    then c
    else rest (if same_socket_state p.socket.state SocketState.scheduled then f i p.socket c else c)

-- A loop over `n` paths from the one of number `i` on that does `f` to the scheduled ones.
unfoldable pub each_scheduled :
    (ℕ → PathSocket → Connection → Connection) → ℕ → ℕ → Connection → Connection
unfolding scheduled_round
each_scheduled f zero i c = c
each_scheduled f (suc n) i c =
    scheduled_round f (each_scheduled f n (i + 1)) i c (get_elem? (paths c) i)

-- the part of `pickup_connected_socket` that hands a ready socket over
unfoldable pub pass_socket : ℕ → PathSocket → Connection → Connection
unfolding socket_pause each_scheduled clear_timeouts
pass_socket i s c =
    let c₁ = put i (record s { state = SocketState.done; fd = negsuc 0 }) c in
    let c₂ = each_scheduled socket_pause (length (paths c₁)) 0 c₁ in
    let c₃ = record c₂ {
      skip_scheduled = if is_some c₂.priority_timeout then false else c₂.skip_scheduled;
    } in
    let c₄ = clear_timeouts c₃ in record c₄ { passed = c₄.passed ++ (i, s.fd) ∷ [] }

unfoldable pub start_priority_timeout : Net → Connection → Connection
unfolding timeout_add
start_priority_timeout net c =
    let (timeout, query) = timeout_add net.env (WatchCallback.plugin 1) c.query in
    if is_some c.priority_timeout then c else record c { query = query; priority_timeout = timeout }

-- the priority timeout, where a scheduled socket was found
unfoldable pub wait_for_priority : Net → Connection → Connection
unfolding start_priority_timeout find_socket
wait_for_priority net c =
    if is_some (find_socket is_ready 0 (paths c)) then start_priority_timeout net c else c

-- `pickup_connected_socket`, on the candidate that its first loop found
unfoldable pub pickup_found :
    Net → (Connection → Connection) → Option (ℕ × PathSocket) → Connection → Connection
unfolding pass_socket wait_for_priority
pickup_found net enabled none c = enabled c
pickup_found net enabled (some (i, s)) c =
    if is_ready s then pass_socket i s c else enabled (wait_for_priority net c)

-- `pickup_connected_socket` and `enable_sockets` call each other: each call made by an attempt to
-- connect has one path less that has not been tried, so one more than the number of these is fuel
-- enough.
unfoldable pub pickup : Net → ℕ → Connection → Connection
unfolding pickup_found enable find_socket
pickup net zero c = record c { unfinished = true }
pickup net (suc f) c =
    pickup_found net (enable net (pickup net f))
      (find_socket (is_candidate c.skip_scheduled) 0 (paths c)) c

abbrev pub enough : Connection → ℕ
enough c = length (paths c) + 1

-- `pickup_connected_socket` and `enable_sockets` with fuel for all paths
unfoldable pub pickup_connected_socket : Net → Connection → Connection
unfolding pickup
pickup_connected_socket net c = pickup net (enough c) c

unfoldable pub enable_sockets : Net → Connection → Connection
unfolding pickup enable
enable_sockets net c = enable net (pickup net (enough c)) c
