-- ===== src/Sockets/Releasing.antt =====
-- What lib/socket.c closes when the sockets of a query are released.
use mathlib.Core.List.{append-nil, append_assoc}
use netresolve.Prelude.{
  ℕ, ℤ, ◌+◌, ◌≡◌, refl, sym, ap, ◌∙◌, Bool-cases, inl, inr, Option, none, some, List, [], ◌∷◌, ◌++◌,
  get_elem?, length, length-append, ◌==◌, if◌then◌else◌,
}
use netresolve.Types.{PathSocket, AddrPath}
use netresolve.Sockets.{
  Connection, paths, put_socket, clear_timeouts, remove_timer, remove_watch_if, close_if_open,
  closed_socket, socket_cleanup, is_open, reads_paths,
}
use netresolve.Sockets.Listening.{path_round, each_path, connect_free, listen_free}
use netresolve.Sockets.Advance.Moves.{socket_cleanup-paths, clear_timeouts-Same}

-- The descriptor of a socket, if it is not -1.
abbrev pub open_fd : ℤ → List ℤ
open_fd fd = if is_open fd then fd ∷ [] else []

-- The descriptors of the paths before the end, in order.
abbrev pub open_fds : List AddrPath → List ℤ
open_fds [] = []
open_fds (p ∷ ps) = if p.node.family == 0 then [] else open_fd p.socket.fd ++ open_fds ps

-- The paths with every socket before the end done, unwatched and without a descriptor.
abbrev pub cleaned : List AddrPath → List AddrPath
cleaned [] = []
cleaned (p ∷ ps) =
    if p.node.family == 0 then p ∷ ps else record p { socket = closed_socket } ∷ cleaned ps

get_elem-behind :
    (pre ps : List AddrPath) (p : AddrPath) → get_elem? (pre ++ p ∷ ps) (length pre) ≡ some p
get_elem-behind [] ps p = refl
get_elem-behind (x ∷ pre) ps p = get_elem-behind pre ps p

put_socket-behind :
    (pre ps : List AddrPath) (p : AddrPath) (s : PathSocket)
    → put_socket (length pre) s (pre ++ p ∷ ps) ≡ pre ++ record p { socket = s } ∷ ps
put_socket-behind [] ps p s = refl
put_socket-behind (x ∷ pre) ps p s = ap (x ∷◌) (put_socket-behind pre ps p s)

close_if_open-closed :
    (fd : ℤ) (c : Connection) → (close_if_open fd c).closed ≡ c.closed ++ open_fd fd
unfolding close_if_open
close_if_open-closed fd c = elim (Bool-cases (is_open fd)) [
  | inl e ↦ rw e refl
  | inr e ↦ rw e (sym (append-nil c.closed))
]

remove_watch_if-closed : (t : Option ℕ) (c : Connection) → (remove_watch_if t c).closed ≡ c.closed
unfolding remove_watch_if
remove_watch_if-closed none c = refl
remove_watch_if-closed (some id) c = refl

socket_cleanup-closed :
    (i : ℕ) (s : PathSocket) (c : Connection)
    → (socket_cleanup i s c).closed ≡ c.closed ++ open_fd s.fd
unfolding socket_cleanup
socket_cleanup-closed i s c =
    close_if_open-closed s.fd (remove_watch_if s.watch c)
    ∙ ap (λ closed. closed ++ open_fd s.fd) (remove_watch_if-closed s.watch c)

-- The sockets are those of `ps`, and `fds` were closed besides.
abbrev pub Releases : Connection → List AddrPath → List ℤ → Connection → Type 0
Releases c ps fds c' = (paths c' ≡ ps) × (c'.closed ≡ c.closed ++ fds)

abbrev clean_path : AddrPath → AddrPath
clean_path p = record p { socket = closed_socket }

-- The round of the loop for a path that is not the end, given the loop behind it.
round-Releases :
    (pre ps : List AddrPath) (p : AddrPath) (c c' : Connection)
    → Releases
        (socket_cleanup (length pre) p.socket c)
        ((pre ++ clean_path p ∷ []) ++ cleaned ps)
        (open_fds ps)
        c'
    → Releases c (pre ++ clean_path p ∷ cleaned ps) (open_fd p.socket.fd ++ open_fds ps) c'
round-Releases pre ps p c c' (h, k) = (
  h ∙ append_assoc pre (clean_path p ∷ []) (cleaned ps),
  k
      ∙ ap (λ closed. closed ++ open_fds ps) (socket_cleanup-closed (length pre) p.socket c)
      ∙ append_assoc c.closed (open_fd p.socket.fd) (open_fds ps),
)

cleaned-paths :
    (pre ps : List AddrPath) (p : AddrPath) (c : Connection)
    → paths c ≡ pre ++ p ∷ ps
    → paths (socket_cleanup (length pre) p.socket c) ≡ (pre ++ clean_path p ∷ []) ++ ps
cleaned-paths pre ps p c e =
    socket_cleanup-paths (length pre) p.socket c
    ∙ ap (put_socket (length pre) closed_socket) e
    ∙ put_socket-behind pre ps p closed_socket
    ∙ sym (append_assoc pre (clean_path p ∷ []) ps)

each_path-Releases :
    (pre ps : List AddrPath) (c : Connection)
    → paths c ≡ pre ++ ps
    → Releases c
        (pre ++ cleaned ps)
        (open_fds ps)
        (each_path socket_cleanup (length ps) (length pre) c)
unfolding each_path path_round
each_path-Releases pre [] c e = (e, sym (append-nil c.closed))
each_path-Releases pre (p ∷ ps) c e =
    let here : get_elem? (paths c) (length pre) ≡ some p =
      ap (λ all. get_elem? all (length pre)) e ∙ get_elem-behind pre ps p in
    let c₁ = socket_cleanup (length pre) p.socket c in
    let pre' = pre ++ clean_path p ∷ [] in
    let next : length pre' ≡ length pre + 1 = length-append pre (clean_path p ∷ []) in
    elim (Bool-cases (p.node.family == 0)) [
      | inl k ↦ rw (here, k, path_round) (e, sym (append-nil c.closed))
      | inr k ↦
          let rest = each_path-Releases pre' ps c₁ (cleaned-paths pre ps p c e) in
          let moved : Releases c₁ (pre' ++ cleaned ps) (open_fds ps)
              (each_path socket_cleanup (length ps) (length pre + 1) c₁) =
            rw next at rest in
          rw (here, k, path_round)
            (round-Releases pre ps p c (each_path socket_cleanup (length ps) (length pre + 1) c₁)
              moved)
    ]

remove_timer-closed : (t : Option ℕ) (c : Connection) → (remove_timer t c).closed ≡ c.closed
unfolding remove_timer
remove_timer-closed none c = refl
remove_timer-closed (some id) c = refl

clear_timeouts-closed : (c : Connection) → (clear_timeouts c).closed ≡ c.closed
unfolding clear_timeouts
clear_timeouts-closed c =
    let c₁ = record (remove_timer c.timeout c) { timeout = none } in
    remove_timer-closed c₁.priority_timeout c₁ ∙ remove_timer-closed c.timeout c

remove_timer-timeout : (t : Option ℕ) (c : Connection) → (remove_timer t c).timeout ≡ c.timeout
unfolding remove_timer
remove_timer-timeout none c = refl
remove_timer-timeout (some id) c = refl

-- No timeout is set.
abbrev pub IsUntimed : Connection → Type 0
IsUntimed c = (c.timeout ≡ none) × (c.priority_timeout ≡ none)

clear_timeouts-IsUntimed : (c : Connection) → IsUntimed (clear_timeouts c)
unfolding clear_timeouts
clear_timeouts-IsUntimed c =
    let c₁ = record (remove_timer c.timeout c) { timeout = none } in
    (remove_timer-timeout c₁.priority_timeout c₁, refl)

listen_free-Releases :
    (c : Connection) → Releases c (cleaned (paths c)) (open_fds (paths c)) (listen_free c)
unfolding listen_free reads_paths
listen_free-Releases c = each_path-Releases [] (paths c) (reads_paths c) refl

-- `netresolve_connect_free` and `netresolve_listen_free` close the descriptor of every path that has
-- one, once and in the order of the paths, and leave every socket done, without a watch and without
-- a descriptor; the first leaves no timeout set either.
pub connect_free-Releases :
    (c : Connection)
    → Releases c (cleaned (paths c)) (open_fds (paths c)) (connect_free c)
      × IsUntimed (connect_free c)
      × Releases c (cleaned (paths c)) (open_fds (paths c)) (listen_free c)
unfolding connect_free reads_paths
connect_free-Releases c =
    let c₁ = each_path socket_cleanup (length (paths c)) 0 (reads_paths c) in
    let (p, k) = each_path-Releases [] (paths c) (reads_paths c) refl in
    let (same, _) = clear_timeouts-Same c₁ in
    ((same ∙ p, clear_timeouts-closed c₁ ∙ k), clear_timeouts-IsUntimed c₁, listen_free-Releases c)
