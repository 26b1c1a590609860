-- ===== src/Sockets/Events.antt =====
-- Sequences of the events that lib/socket.c handles.
use mathlib.Core.Path.{subst}
use netresolve.Prelude.{
  true, sym, ℕ, suc, negsuc, ◌≡◌, ◌≢◌, refl, some, List, [], ◌∷◌, get_elem?, All, Bool-cases, inl,
  inr, ◌==◌, arith,
}
use netresolve.Types.{SocketState, PathSocket, AddrPath, zero_socket}
use netresolve.Sockets.{Connection, Net, Errno, paths}
use netresolve.Sockets.Handlers.{
  set_fds, connect_prepare, connect_next, connect_ready, connect_timeout, connect_priority_timeout,
}
use netresolve.Sockets.Advance.{
  nones, IsSound, AllSound, Forward, Forward-refl, Forward-trans, Advances, Advances-trans,
}
use netresolve.Sockets.Advance.Loops.{Advances-refl}
use netresolve.Sockets.Advance.Ends.{
  enable_sockets-Moves, connect_timeout-Moves, connect_priority_timeout-Moves, connect_next-Moves,
  connect_ready-Advances,
}

-- One call from the event loop or from the user. Only a scheduled socket has a watch that can become
-- ready.
pub data Event (net : Net) : Connection → Connection → Type 0 where
  next : (c : Connection) → Event net c (connect_next net c)
  timeout : (c : Connection) → Event net c (connect_timeout net c)
  priority_timeout : (c : Connection) → Event net c (connect_priority_timeout net c)
  ready :
      (i : ℕ) (errno : Errno) (p : AddrPath) (c : Connection)
      → get_elem? (paths c) i ≡ some p
      → p.socket.state ≡ SocketState.scheduled
      → Event net c (connect_ready net i errno c)

pub data Events (net : Net) : Connection → Connection → Type 0 where
  stop : (c : Connection) → Events net c c
  more : (a b c : Connection) → Event net a b → Events net b c → Events net a c

Event-Advances : (net : Net) (f : ℕ) (a b : Connection) → Event net a b → Advances f a b
Event-Advances net f _ _ (Event.next c) = connect_next-Moves net f c
Event-Advances net f _ _ (Event.timeout c) = connect_timeout-Moves net f c
Event-Advances net f _ _ (Event.priority_timeout c) = connect_priority_timeout-Moves net f c
Event-Advances net f _ _ (Event.ready i errno p c e h) =
    connect_ready-Advances net f i errno p c e h

Events-Advances : (net : Net) (f : ℕ) (a b : Connection) → Events net a b → Advances f a b
Events-Advances net f _ _ (Events.stop c) = Advances-refl f c
Events-Advances net f _ _ (Events.more a b c e es) =
    Advances-trans f a b c (Event-Advances net f a b e) (Events-Advances net f b c es)

-- No socket has been used, as the backends leave the paths.
abbrev pub IsFresh : List AddrPath → Type 0
IsFresh = All (λ p. p.socket ≡ zero_socket)

fresh-IsSound :
    (s : PathSocket) → s ≡ zero_socket → IsSound s × IsSound (record s { fd = negsuc 0 })
fresh-IsSound s e =
    subst (λ t. IsSound t × IsSound (record t { fd = negsuc 0 })) (sym e) (refl, refl)

fresh-AllSound : (ps : List AddrPath) → IsFresh ps → AllSound ps
fresh-AllSound [] h = tt
fresh-AllSound (p ∷ ps) (e, h) =
    let (sound, _) = fresh-IsSound p.socket e in (sound, fresh-AllSound ps h)

set_fds-AllSound : (ps : List AddrPath) → IsFresh ps → AllSound (set_fds ps)
unfolding set_fds
set_fds-AllSound [] h = tt
set_fds-AllSound (p ∷ ps) (e, h) =
    let (sound, opened) = fresh-IsSound p.socket e in
    elim (Bool-cases (p.node.family == 0)) [
      | inl k ↦ rw k (sound, fresh-AllSound ps h)
      | inr k ↦ rw k (opened, set_fds-AllSound ps h)
    ]

set_fds-Forward : (ps : List AddrPath) → Forward ps (set_fds ps)
unfolding set_fds
set_fds-Forward [] = tt
set_fds-Forward (p ∷ ps) = elim (Bool-cases (p.node.family == 0)) [
  | inl k ↦ rw k (refl, omega arith, Forward-refl ps)
  | inr k ↦ rw k (refl, omega arith, set_fds-Forward ps)
]

-- The connection with its descriptors set to -1, before the first sockets are opened.
abbrev pub unopened : Connection → Connection
unopened c =
    let q = c.query in
    record c {
      prepared = true;
      query = record q { response = record q.response { paths = set_fds q.response.paths } };
    }

prepared : (net : Net) (f : ℕ) (c : Connection) → Advances f (unopened c) (connect_prepare net c)
unfolding connect_prepare
prepared net f c = enable_sockets-Moves net f (unopened c)

-- If no socket of the paths was used before `connect_prepare`, then after any sequence of calls and
-- events only a scheduled socket has a watch, and a socket that is done has its descriptor forgotten.
pub connect-AllSound :
    (net : Net) (c c' : Connection)
    → IsFresh (paths c)
    → Events net (connect_prepare net c) c'
    → AllSound (paths c')
connect-AllSound net c c' fresh es =
    let go = Events-Advances net 0 (connect_prepare net c) c' es in
    go.sound ((prepared net 0 c).sound (set_fds-AllSound (paths c) fresh))

-- From `connect_prepare` on, through any sequence of calls and events, the paths stay the same nodes in
-- the same order, and the socket of none goes back to an earlier state.
pub connect-Forward :
    (net : Net) (c c' : Connection)
    → Events net (connect_prepare net c) c'
    → Forward (paths c) (paths c')
connect-Forward net c c' es =
    let go = Events-Advances net 0 (connect_prepare net c) c' es in
    let first =
      Forward-trans (paths c) (set_fds (paths c)) (paths (connect_prepare net c))
        (set_fds-Forward (paths c)) (prepared net 0 c).forward in
    Forward-trans (paths c) (paths (connect_prepare net c)) (paths c') first go.forward

Forward-some : (ps qs : List AddrPath) → Forward ps qs → ps ≢ [] → qs ≢ []
Forward-some [] qs h some_path = absurd (some_path refl)
Forward-some (p ∷ ps) [] h some_path = elim h [ ]
Forward-some (p ∷ ps) (q ∷ qs) h some_path = λ e. cc

-- If the query has a path and the user's callback leaves it alone, `pickup_connected_socket` and
-- `enable_sockets`, which call each other, always return: `connect_prepare` and any sequence of calls and
-- events behind it, with sockets that connect or fail at once in any way, never use up the fuel, and
-- leave a path for the loops of what comes next.
pub connect-returns :
    (net : Net) (c c' : Connection)
    → paths c ≢ []
    → Events net (connect_prepare net c) c'
    → (c'.unfinished ≡ c.unfinished) × (paths c' ≢ [])
connect-returns net c c' some_path es =
    let n = suc (nones (set_fds (paths c))) in
    let all =
      Advances-trans n (unopened c) (connect_prepare net c) c' (prepared net n c)
        (Events-Advances net n (connect_prepare net c) c' es) in
    (
      all.finishes (omega arith),
      Forward-some (paths c) (paths c') (connect-Forward net c c' es) some_path,
    )
