-- ===== src/Sockets.antt =====
-- lib/socket.c: connecting to the addresses that a query has found, one of each family at a time.
-- The paths end at the first with no family, as the array does. What `socket` and `connect` do for a
-- path is a parameter, since a path is tried once. A user's callback is taken to leave the query alone:
-- it may not call `netresolve_connect_next` itself, only later. Each loop over the paths reads the first
-- through a pointer that may be NULL; that is a fault, which `reads_paths` records.
pub mod Handlers
mod Connecting
mod Listening
mod Releasing
mod Advance
pub mod Ledger
mod Events
mod Examples
use netresolve.Prelude.{
  ℕ, ℤ, zero, suc, pos, negsuc, ◌+◌, Bool, true, false, not, ◌&&◌, ◌||◌, Option, none, some, List,
  [], ◌∷◌, ◌++◌, get_elem?, length, ◌==◌, if◌then◌else◌, is_some,
}
use netresolve.Types.{SocketState, PathSocket, AddrPath}
use netresolve.Types.Af
use netresolve.Query.{
  WatchCallback, Query, Env, assertion, dangling_watch, null_paths, fault, check,
}
use netresolve.Watch.{watch_add, watch_remove, timeout_add, timeout_remove}

-- struct netresolve_socket, with the query that it names once `prepared` says so; before that, its
-- pointer to the query is NULL, and `query` is the one that it is given to. `passed` has the calls of the user's
-- callback, each with the number of the path and the descriptor, and `closed` the descriptors that
-- were closed. `unfinished` says that the fuel of `pickup` ran out.
pub record Connection : Type 0 where
  pub query : Query
  pub prepared : Bool
  pub timeout : Option ℕ
  pub priority_timeout : Option ℕ
  pub skip_scheduled : Bool
  pub sequential_connect : Bool
  pub passed : List (ℕ × ℤ)
  pub closed : List ℤ
  pub unfinished : Bool

-- `errno` behind `connect`, or behind `getsockopt` when a socket becomes writable.
pub data Errno : Type 0 where
  success in_progress other : Errno

-- What `socket` returns for the path of a number, and what `errno` is then, behind `connect` too if
-- there is a socket.
pub record Net : Type 0 where
  pub env : Env
  pub fd : ℕ → ℤ
  pub errno : ℕ → Errno

abbrev pub paths : Connection → List AddrPath
paths c = c.query.response.paths

abbrev is_empty : List AddrPath → Bool
is_empty [] = true
is_empty (p ∷ ps) = false

abbrev pub same_socket_state : SocketState → SocketState → Bool
same_socket_state SocketState.none SocketState.none = true
same_socket_state SocketState.scheduled SocketState.scheduled = true
same_socket_state SocketState.ready SocketState.ready = true
same_socket_state SocketState.done SocketState.done = true
same_socket_state _ _ = false

abbrev pub socket_at : ℕ → List AddrPath → Option PathSocket
socket_at i [] = none
socket_at zero (p ∷ ps) = some p.socket
socket_at (suc i) (p ∷ ps) = socket_at i ps

abbrev pub put_socket : ℕ → PathSocket → List AddrPath → List AddrPath
put_socket i s [] = []
put_socket zero s (p ∷ ps) = record p { socket = s } ∷ ps
put_socket (suc i) s (p ∷ ps) = p ∷ put_socket i s ps

-- The socket of the path of a number is `s` now.
abbrev pub put : ℕ → PathSocket → Connection → Connection
put i s c =
    let q = c.query in
    record c {
      query = record q { response = record q.response { paths = put_socket i s q.response.paths } };
    }

-- A loop over the paths from the pointer in the response, which is NULL if no path was ever added:
-- reading the first is then a fault. So it is if the pointer to the query is NULL.
pub reads_paths : Connection → Connection
reads_paths c =
    let q = c.query in
    record c {
      query = record q {
        faults =
            q.faults ++ (if c.prepared && not (is_empty (paths c)) then [] else null_paths ∷ []);
      };
    }

abbrev pub on_query : (Query → Query) → Connection → Connection
on_query f c = record c { query = f c.query }

abbrev pub assert : Bool → Connection → Connection
assert ok c = on_query (check ok assertion) c

remove_timer : Option ℕ → Connection → Connection
unfolding timeout_remove
remove_timer none c = c
remove_timer (some id) c = on_query (timeout_remove id) c

-- `clear_timeouts`
pub clear_timeouts : Connection → Connection
unfolding remove_timer
clear_timeouts c =
    let c₁ = record (remove_timer c.timeout c) { timeout = none } in
    record (remove_timer c₁.priority_timeout c₁) { priority_timeout = none }

-- `assert(fd >= 0)` of `netresolve_watch_add` is not repeated here: a socket is watched only where
-- `connect` found it in order.
abbrev pub fd_number : ℤ → ℕ
fd_number (pos n) = n
fd_number (negsuc n) = 0

-- the watch of a path is removed; `netresolve_watch_remove` dereferences NULL if there is none
pub remove_watch : Option ℕ → Connection → Connection
unfolding watch_remove
remove_watch none c = on_query (fault dangling_watch) c
remove_watch (some id) c = on_query (watch_remove id) c

-- the path gets a watch; the callbacks 0 and 1 are those of the two timeouts
watch_path : ℕ → PathSocket → Connection → Connection
unfolding watch_add
watch_path i s c =
    put i (record s { state = SocketState.scheduled; watch = some c.query.next_watch })
      (on_query (watch_add (fd_number s.fd) (WatchCallback.plugin (i + 2))) c)

-- `socket_schedule`; `s` is the socket of the path
pub socket_schedule : ℕ → PathSocket → Connection → Connection
unfolding watch_path
socket_schedule i s c = watch_path i s (assert (same_socket_state s.state SocketState.none) c)

-- `socket_pause`
pub socket_pause : ℕ → PathSocket → Connection → Connection
unfolding remove_watch
socket_pause i s c =
    let c₁ = assert (same_socket_state s.state SocketState.scheduled) c in
    let c₂ = assert (is_some s.watch) c₁ in
    put i (record s { watch = none }) (remove_watch s.watch c₂)

-- `socket_resume`
pub socket_resume : ℕ → PathSocket → Connection → Connection
unfolding watch_path
socket_resume i s c =
    let c₁ = assert (same_socket_state s.state SocketState.scheduled) c in
    let c₂ = assert (not (is_some s.watch)) c₁ in watch_path i s c₂

abbrev pub is_open : ℤ → Bool
is_open (pos n) = true
is_open (negsuc zero) = false
is_open (negsuc (suc n)) = true

remove_watch_if : Option ℕ → Connection → Connection
unfolding watch_remove
remove_watch_if none c = c
remove_watch_if (some id) c = on_query (watch_remove id) c

close_if_open : ℤ → Connection → Connection
close_if_open fd c = if is_open fd then record c { closed = c.closed ++ fd ∷ [] } else c

abbrev pub closed_socket : PathSocket
closed_socket = record { state = SocketState.done; watch = none; fd = negsuc 0 }

-- `socket_cleanup`
pub socket_cleanup : ℕ → PathSocket → Connection → Connection
unfolding remove_watch_if close_if_open
socket_cleanup i s c = put i closed_socket (close_if_open s.fd (remove_watch_if s.watch c))
