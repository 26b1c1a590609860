-- ===== src/Sockets/Ledger.antt =====
-- An account of the descriptors of lib/socket.c: held by a socket, closed, or handed over.
pub mod Moves
pub mod Tries
pub mod Loops
pub mod Giving
pub mod Release
use netresolve.Prelude.{
  ℕ, ℤ, zero, suc, pos, negsuc, ◌+◌, ◌≤◌, ◌≡◌, refl, ap, ◌∙◌, Option, some, List, [], ◌∷◌, ◌++◌,
  arith, ◌==◌, if◌then◌else◌, ◌⊎◌, inl, inr, sym,
}
use mathlib.Core.Path.{subst}
use netresolve.Types.{SocketState, PathSocket, AddrPath}
use netresolve.Sockets.{Connection, Net, paths, socket_at, put_socket}

-- 1 if the descriptor is `x`.
abbrev pub is_fd : ℕ → ℤ → ℕ
is_fd x (pos n) = if n == x then 1 else 0
is_fd x (negsuc n) = 0

-- How often `x` is among some descriptors.
abbrev pub count : ℕ → List ℤ → ℕ
count x [] = 0
count x (fd ∷ fds) = is_fd x fd + count x fds

-- How often `x` was handed over.
abbrev pub handed : ℕ → List (ℕ × ℤ) → ℕ
handed x [] = 0
handed x ((i, fd) ∷ rest) = is_fd x fd + handed x rest

abbrev pub done_one : ℕ → ℤ → SocketState → ℕ
done_one x fd SocketState.none = 0
done_one x fd SocketState.scheduled = 0
done_one x fd SocketState.ready = 0
done_one x fd SocketState.done = is_fd x fd

-- How many paths are done to which `socket` gave `x`; the first path has the number `k`.
abbrev pub done_count : ℕ → (ℕ → ℤ) → ℕ → List AddrPath → ℕ
done_count x fd k [] = 0
done_count x fd k (p ∷ ps) = done_one x (fd k) p.socket.state + done_count x fd (suc k) ps

-- A socket that is used holds the descriptor that it got.
abbrev pub Owns : ℤ → PathSocket → Type 0
Owns fd s = elim s.state [
  | SocketState.none ↦ Unit {0}
  | SocketState.scheduled ↦ s.fd ≡ fd
  | SocketState.ready ↦ s.fd ≡ fd
  | SocketState.done ↦ Unit {0}
]

-- Every socket that is used holds the descriptor of its path, and those closed or handed over, with
-- `extra` that are about to be, are just those of the paths that are done, each as often.
pub record Ledger (net : Net) (extra : ℕ → ℕ) (c : Connection) : Type 0 where
  pub own : (i : ℕ) (s : PathSocket) → socket_at i (paths c) ≡ some s → Owns (net.fd i) s
  pub balance :
      (x : ℕ) → count x c.closed + handed x c.passed + extra x ≡ done_count x net.fd 0 (paths c)

abbrev pub no_extra : ℕ → ℕ
no_extra x = 0

pub count-snoc :
    (x : ℕ) (fd : ℤ) (fds : List ℤ) → count x (fds ++ fd ∷ []) ≡ count x fds + is_fd x fd
count-snoc x fd [] = omega arith
count-snoc x fd (y ∷ ys) = omega (arith, count-snoc x fd ys)

pub handed-snoc :
    (x i : ℕ) (fd : ℤ) (ps : List (ℕ × ℤ))
    → handed x (ps ++ (i, fd) ∷ []) ≡ handed x ps + is_fd x fd
handed-snoc x i fd [] = omega arith
handed-snoc x i fd ((j, g) ∷ ps) = omega (arith, handed-snoc x i fd ps)

-- What the socket of one path adds to the count.
done_count-put :
    (x : ℕ) (fd : ℕ → ℤ) (k i : ℕ) (s t : PathSocket) (ps : List AddrPath)
    → socket_at i ps ≡ some s
    → done_count x fd k (put_socket i t ps) + done_one x (fd (k + i)) s.state
      ≡ done_count x fd k ps + done_one x (fd (k + i)) t.state
done_count-put x fd k i s t [] e = cc
done_count-put x fd k zero s t (p ∷ ps) e =
    let same : p.socket ≡ s = cc in
    let here : k + 0 ≡ k = omega arith in rw (same, here) (omega arith)
done_count-put x fd k (suc i) s t (p ∷ ps) e =
    let next : k + suc i ≡ suc k + i = omega arith in
    rw next (omega (arith, done_count-put x fd (suc k) i s t ps e))

socket_at-put_cases :
    (i j : ℕ) (s t : PathSocket) (ps : List AddrPath)
    → socket_at j (put_socket i t ps) ≡ some s
    → ((j ≡ i) × (t ≡ s)) ⊎ (socket_at j ps ≡ some s)
socket_at-put_cases i j s t [] e = inr e
socket_at-put_cases zero zero s t (p ∷ ps) e = inl (refl, cc)
socket_at-put_cases zero (suc j) s t (p ∷ ps) e = inr e
socket_at-put_cases (suc i) zero s t (p ∷ ps) e = inr e
socket_at-put_cases (suc i) (suc j) s t (p ∷ ps) e = elim (socket_at-put_cases i j s t ps e) [
  | inl (same, k) ↦ inl (ap suc same, k)
  | inr k ↦ inr k
]

-- The sockets and the descriptors given away are as they were.
abbrev pub Still : Connection → Connection → Type 0
Still c c' = (paths c' ≡ paths c) × (c'.closed ≡ c.closed) × (c'.passed ≡ c.passed)

pub Ledger-Still :
    (net : Net) (extra : ℕ → ℕ) (c c' : Connection)
    → Still c c'
    → Ledger net extra c
    → Ledger net extra c'
Ledger-Still net extra c c' (p, k, h) l = record {
  own = λ i s e. l.own i s (sym (ap (socket_at i) p) ∙ e);
  balance = λ x. rw (p, k, h) (l.balance x);
}

-- One socket moves on, and what is given away with it.
pub Ledger-put :
    (net : Net) (extra extra' : ℕ → ℕ) (i : ℕ) (s t : PathSocket) (c c' : Connection)
    → Ledger net extra c
    → socket_at i (paths c) ≡ some s
    → Owns (net.fd i) t
    → paths c' ≡ put_socket i t (paths c)
    → ((x : ℕ)
        → count x c'.closed + handed x c'.passed + extra' x + done_one x (net.fd i) s.state
          ≡ count x c.closed + handed x c.passed + extra x + done_one x (net.fd i) t.state)
    → Ledger net extra' c'
Ledger-put net extra extra' i s t c c' l at_i owns p given = record {
  own = λ j u e. elim (socket_at-put_cases i j u t (paths c) (sym (ap (socket_at j) p) ∙ e)) [
    | inl (same, k) ↦ rw same (subst (Owns (net.fd i)) k owns)
    | inr old ↦ l.own j u old
  ];
  balance = λ x.
      let here : 0 + i ≡ i = omega arith in
      let moved = done_count-put x net.fd 0 i s t (paths c) at_i in
      rw p (omega (arith, l.balance x, given x, rw here at moved));
}
