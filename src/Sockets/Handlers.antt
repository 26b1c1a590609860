-- ===== src/Sockets/Handlers.antt =====
-- lib/socket.c: the events of a connection, its start, and the search for another path.
use netresolve.Prelude.{
  ℕ, negsuc, true, Option, none, some, List, [], ◌∷◌, get_elem?, length, ◌==◌, if◌then◌else◌,
  is_some,
}
use netresolve.Types.{SocketState, AddrPath}
use netresolve.Query.{dangling_watch, fault}
use netresolve.Sockets.{
  Connection, Errno, Net, paths, same_socket_state, on_query, assert, clear_timeouts,
  socket_cleanup,
}
use netresolve.Sockets.Connecting.{
  connect_check, each_scheduled, pickup_connected_socket, enable_sockets,
}

unfoldable pub ready_on : Net → ℕ → Errno → Connection → Option AddrPath → Connection
unfolding connect_check pickup_connected_socket
ready_on net i errno c none = on_query (fault dangling_watch) c
ready_on net i errno c (some p) =
    let c₁ = assert (same_socket_state p.socket.state SocketState.scheduled) c in
    let c₂ = assert (is_some p.socket.watch) c₁ in
    connect_check (pickup_connected_socket net) i p.socket errno c₂

-- `connect_ready`, on the path of a number
unfoldable pub connect_ready : Net → ℕ → Errno → Connection → Connection
unfolding ready_on
connect_ready net i errno c = ready_on net i errno c (get_elem? (paths c) i)

-- `connect_timeout`
unfoldable pub connect_timeout : Net → Connection → Connection
unfolding clear_timeouts each_scheduled socket_cleanup enable_sockets
connect_timeout net c =
    let c₁ = clear_timeouts c in
    enable_sockets net (each_scheduled socket_cleanup (length (paths c₁)) 0 c₁)

-- `connect_priority_timeout`
unfoldable pub connect_priority_timeout : Net → Connection → Connection
unfolding pickup_connected_socket
connect_priority_timeout net c = pickup_connected_socket net (record c { skip_scheduled = true })

unfoldable pub set_fds : List AddrPath → List AddrPath
set_fds [] = []
set_fds (p ∷ ps) =
    let rest = set_fds ps in
    if p.node.family == 0
    then p ∷ ps
    else record p { socket = record p.socket { fd = negsuc 0 } } ∷ rest

-- `connect_prepare`. Its own loop over the paths reads the first as that of `enable_sockets` does, where
-- the fault is recorded.
unfoldable pub connect_prepare : Net → Connection → Connection
unfolding set_fds enable_sockets
connect_prepare net c =
    let q = c.query in
    enable_sockets net (record c {
      prepared = true;
      query = record q { response = record q.response { paths = set_fds q.response.paths } };
    })

-- `netresolve_connect_next`
unfoldable pub connect_next : Net → Connection → Connection
unfolding enable_sockets
connect_next = enable_sockets
