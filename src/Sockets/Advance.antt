-- ===== src/Sockets/Advance.antt =====
-- How the functions of lib/socket.c may change the sockets of the paths.
pub mod Moves
pub mod Tries
pub mod Loops
pub mod Ends
use mathlib.Core.Path.{subst}
use netresolve.Prelude.{
  ℕ, ℤ, zero, suc, pos, negsuc, ◌+◌, ◌≤◌, ◌<◌, ◌≡◌, refl, ap, ◌∙◌, Bool, true, false, Option, none,
  some, List, [], ◌∷◌, arith, All,
}
use netresolve.Types.{SocketState, PathSocket, AddrPath}
use netresolve.Sockets.{Connection, paths, socket_at, put_socket}

-- The order in which a socket goes through its states.
abbrev pub rank : SocketState → ℕ
rank SocketState.none = 0
rank SocketState.scheduled = 1
rank SocketState.ready = 2
rank SocketState.done = 3

abbrev pub untried : SocketState → ℕ
untried SocketState.none = 1
untried _ = 0

-- How many paths have not been tried.
abbrev pub nones : List AddrPath → ℕ
nones [] = 0
nones (p ∷ ps) = untried p.socket.state + nones ps

-- The same nodes, and no socket went back.
abbrev pub Forward : List AddrPath → List AddrPath → Type 0
Forward [] [] = Unit {0}
Forward (p ∷ ps) (q ∷ qs) =
    (q.node ≡ p.node) × (rank p.socket.state ≤ rank q.socket.state) × Forward ps qs
Forward _ _ = ⊥

-- Only a scheduled socket has a watch, and a socket that is done has no descriptor.
abbrev pub IsSound : PathSocket → Type 0
IsSound s = elim s.state [
  | SocketState.none ↦ s.watch ≡ none
  | SocketState.scheduled ↦ Unit {0}
  | SocketState.ready ↦ s.watch ≡ none
  | SocketState.done ↦ (s.watch ≡ none) × (s.fd ≡ negsuc 0)
]

abbrev pub AllSound : List AddrPath → Type 0
AllSound = All (λ p. IsSound p.socket)

pub Forward-refl : (ps : List AddrPath) → Forward ps ps
Forward-refl [] = tt
Forward-refl (p ∷ ps) = (refl, omega arith, Forward-refl ps)

pub Forward-trans : (ps qs rs : List AddrPath) → Forward ps qs → Forward qs rs → Forward ps rs
Forward-trans [] [] [] h k = tt
Forward-trans [] [] (r ∷ rs) h k = elim k [ ]
Forward-trans [] (q ∷ qs) rs h k = elim h [ ]
Forward-trans (p ∷ ps) [] rs h k = elim h [ ]
Forward-trans (p ∷ ps) (q ∷ qs) [] h k = elim k [ ]
Forward-trans (p ∷ ps) (q ∷ qs) (r ∷ rs) (a, b, h) (c, d, k) =
    (c ∙ a, omega (arith, b, d), Forward-trans ps qs rs h k)

untried-le : (s t : SocketState) → rank s ≤ rank t → untried t ≤ untried s
untried-le s t h = ground arith

pub nones-Forward : (ps qs : List AddrPath) → Forward ps qs → nones qs ≤ nones ps
nones-Forward [] [] h = omega arith
nones-Forward [] (q ∷ qs) h = elim h [ ]
nones-Forward (p ∷ ps) [] h = elim h [ ]
nones-Forward (p ∷ ps) (q ∷ qs) (a, b, h) =
    omega (arith, untried-le p.socket.state q.socket.state b, nones-Forward ps qs h)

put_socket-Forward :
    (i : ℕ) (s t : PathSocket) (ps : List AddrPath)
    → socket_at i ps ≡ some s
    → rank s.state ≤ rank t.state
    → Forward ps (put_socket i t ps)
put_socket-Forward i s t [] e h = tt
put_socket-Forward zero s t (p ∷ ps) e h =
    let same : p.socket ≡ s = cc in (refl, rw same h, Forward-refl ps)
put_socket-Forward (suc i) s t (p ∷ ps) e h = (refl, omega arith, put_socket-Forward i s t ps e h)

put_socket-AllSound :
    (i : ℕ) (s t : PathSocket) (ps : List AddrPath)
    → socket_at i ps ≡ some s
    → (IsSound s → IsSound t)
    → AllSound ps
    → AllSound (put_socket i t ps)
put_socket-AllSound i s t [] e keep h = tt
put_socket-AllSound zero s t (p ∷ ps) e keep (hp, h) =
    let same : p.socket ≡ s = cc in (keep (subst IsSound same hp), h)
put_socket-AllSound (suc i) s t (p ∷ ps) e keep (hp, h) =
    (hp, put_socket-AllSound i s t ps e keep h)

pub nones-put_socket :
    (i : ℕ) (s t : PathSocket) (ps : List AddrPath)
    → socket_at i ps ≡ some s
    → s.state ≡ SocketState.none
    → 0 < rank t.state
    → nones (put_socket i t ps) < nones ps
nones-put_socket i s t [] e h k = cc
nones-put_socket zero s t (p ∷ ps) e h k = ground arith
nones-put_socket (suc i) s t (p ∷ ps) e h k = omega (arith, nones-put_socket i s t ps e h k)

-- `c'` comes from `c`: no socket went back, the sockets stay sound, and if fewer than `f` paths have
-- not been tried, no fuel ran out.
pub record Advances (f : ℕ) (c c' : Connection) : Type 0 where
  pub forward : Forward (paths c) (paths c')
  pub sound : AllSound (paths c) → AllSound (paths c')
  pub finishes : nones (paths c) < f → c'.unfinished ≡ c.unfinished

pub Advances-trans : (f : ℕ) (a b c : Connection) → Advances f a b → Advances f b c → Advances f a c
Advances-trans f a b c h k = record {
  forward = Forward-trans (paths a) (paths b) (paths c) h.forward k.forward;
  sound = λ s. k.sound (h.sound s);
  finishes = λ n.
      k.finishes (omega (arith, n, nones-Forward (paths a) (paths b) h.forward)) ∙ h.finishes n;
}

-- The sockets are not touched.
pub Advances-same :
    (f : ℕ) (c c' : Connection)
    → paths c' ≡ paths c
    → c'.unfinished ≡ c.unfinished
    → Advances f c c'
Advances-same f c c' e u = record {
  forward = rw e (Forward-refl (paths c));
  sound = λ h. rw e h;
  finishes = λ n. u;
}

-- One socket moves on.
pub Advances-put :
    (f i : ℕ) (s t : PathSocket) (c c' : Connection)
    → socket_at i (paths c) ≡ some s
    → rank s.state ≤ rank t.state
    → (IsSound s → IsSound t)
    → paths c' ≡ put_socket i t (paths c)
    → c'.unfinished ≡ c.unfinished
    → Advances f c c'
Advances-put f i s t c c' at_i up keep e u = record {
  forward = rw e (put_socket-Forward i s t (paths c) at_i up);
  sound = λ h. rw e (put_socket-AllSound i s t (paths c) at_i keep h);
  finishes = λ n. u;
}
