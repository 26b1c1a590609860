-- ===== src/Sockets/Listening.antt =====
-- lib/socket.c: listening on the addresses that a query has found, accepting connections, and the
-- release of the sockets of a query.
use netresolve.Prelude.{
  ℕ, ℤ, zero, suc, pos, ◌+◌, ◌-◌, ◌/◌, ◌%◌, ◌^◌, Bool, true, false, not, ◌&&◌, ◌||◌, Option, none,
  some, List, [], ◌∷◌, ◌++◌, CString, get_elem?, length, ◌==◌, if◌then◌else◌, is_some,
}
use netresolve.Types.{SocketState, PathSocket, AddrPath}
use netresolve.Types.Af
use netresolve.Options.{Setting}
use netresolve.Sockets.{
  Connection, paths, same_socket_state, clear_timeouts, socket_resume, socket_cleanup, is_open,
  reads_paths,
}
use netresolve.Sockets.Connecting.{has_sockaddr}

-- a flag of an int, taken away
abbrev without_bit : ℕ → ℕ → ℕ
without_bit k n = if n / 2 ^ k % 2 == 1 then n - 2 ^ k else n

-- `socktype & ~(SOCK_NONBLOCK | SOCK_CLOEXEC)`
abbrev pub plain_socktype : ℕ → ℕ
plain_socktype socktype = without_bit 19 (without_bit 11 socktype)

abbrev socket_settings : Option CString → Option CString → ℤ → ℕ → ℤ → Bool → List Setting
socket_settings nodename servname family socktype protocol loopback =
    Setting.node_name nodename
    ∷ Setting.service_name servname
    ∷ Setting.family family
    ∷ Setting.socktype (pos (plain_socktype socktype))
    ∷ Setting.protocol protocol
    ∷ Setting.default_loopback loopback
    ∷ []

-- the options of `netresolve_connect`
pub connect_settings : Option CString → Option CString → ℤ → ℕ → ℤ → List Setting
connect_settings nodename servname family socktype protocol =
    socket_settings nodename servname family socktype protocol true

-- the options of `netresolve_listen`
pub listen_settings : Option CString → Option CString → ℤ → ℕ → ℤ → List Setting
listen_settings nodename servname family socktype protocol =
    socket_settings nodename servname family socktype protocol false

-- For the path of a number: what `socket` returns, and whether SO_REUSEADDR, IPV6_V6ONLY, and `bind` with
-- `listen` succeed.
pub record ListenNet : Type 0 where
  pub fd : ℕ → ℤ
  pub reuse : ℕ → Bool
  pub v6only : ℕ → Bool
  pub bound : ℕ → Bool

-- The round of `listen_callback` for a path: its socket, and the descriptors that are closed.
listen_path : ListenNet → ℕ → AddrPath → PathSocket × List ℤ
listen_path net i p =
    let s = record p.socket { fd = net.fd i } in
    if not (has_sockaddr p.node.family)
    then (p.socket, [])
    else if not (is_open (net.fd i))
        || not (net.reuse i)
        || p.node.family == Af.inet6 && not (net.v6only i)
    then (s, [])
    else if net.bound i
    then (record s { state = SocketState.scheduled }, [])
    else (s, net.fd i ∷ [])

-- The loop of `listen_callback` over the paths, the first of which has the number `i`.
pub listen_paths : ListenNet → ℕ → List AddrPath → List AddrPath × List ℤ
unfolding listen_path
listen_paths net i [] = ([], [])
listen_paths net i (p ∷ ps) =
    let (s, closed) = listen_path net i p in
    let (rest, closed') = listen_paths net (i + 1) ps in
    if p.node.family == 0 then (p ∷ ps, []) else (record p { socket = s } ∷ rest, closed ++ closed')

-- `listen_callback`
unfoldable pub listen_callback : ListenNet → Connection → Connection
unfolding listen_paths reads_paths
listen_callback net c =
    let c' = reads_paths (record c { prepared = true }) in
    let q = c'.query in
    let (ps, closed) = listen_paths net 0 q.response.paths in
    record c' {
      query = record q { response = record q.response { paths = ps } };
      closed = c.closed ++ closed;
    }

unfoldable pub path_round :
    (ℕ → PathSocket → Connection → Connection)
    → (Connection → Connection)
    → ℕ
    → Connection
    → Option AddrPath
    → Connection
path_round f rest i c none = c
path_round f rest i c (some p) = if p.node.family == 0 then c else rest (f i p.socket c)

-- A loop over `n` paths from the one of number `i` on that does `f` to the socket of each.
unfoldable pub each_path :
    (ℕ → PathSocket → Connection → Connection) → ℕ → ℕ → Connection → Connection
unfolding path_round
each_path f zero i c = c
each_path f (suc n) i c = path_round f (each_path f n (i + 1)) i c (get_elem? (paths c) i)

accept_socket : ℕ → PathSocket → Connection → Connection
unfolding socket_resume
accept_socket i s c =
    if same_socket_state s.state SocketState.scheduled && not (is_some s.watch)
    then socket_resume i s c
    else c

-- `netresolve_accept` in non-blocking mode
pub accept : Connection → Connection
unfolding accept_socket each_path reads_paths
accept c = each_path accept_socket (length (paths c)) 0 (reads_paths c)

-- `accept_callback`, with what `accept` returns, and whether the flags of the descriptor could be set
pub accept_callback : ℕ → ℤ → Bool → Connection → Connection
accept_callback i fd flags_set c =
    if is_open fd && flags_set then record c { passed = c.passed ++ (i, fd) ∷ [] } else c

-- `netresolve_connect_free`, before the query is freed
unfoldable pub connect_free : Connection → Connection
unfolding each_path socket_cleanup clear_timeouts reads_paths
connect_free c = clear_timeouts (each_path socket_cleanup (length (paths c)) 0 (reads_paths c))

-- `netresolve_listen_free`, before the query is freed
unfoldable pub listen_free : Connection → Connection
unfolding each_path socket_cleanup reads_paths
listen_free c = each_path socket_cleanup (length (paths c)) 0 (reads_paths c)
