-- ===== src/Sockets/Ledger/Release.antt =====
-- The account of the descriptors when the sockets of a connection are released (lib/socket.c).
use netresolve.Prelude.{
  ℕ, ℤ, suc, pos, negsuc, ◌+◌, ◌≤◌, ◌≡◌, refl, Bool-cases, inl, inr, Option, some, List, [], ◌∷◌,
  ◌++◌, arith, ◌==◌, if◌then◌else◌,
}
use mathlib.Core.Path.{subst}
use netresolve.Types.{SocketState, PathSocket, AddrPath}
use netresolve.Sockets.{Connection, Net, paths, socket_at}
use netresolve.Sockets.Listening.{connect_free}
use netresolve.Sockets.Releasing.{open_fd, open_fds, connect_free-Releases}
use netresolve.Sockets.Ledger.{is_fd, count, handed, done_one, done_count, Owns, Ledger, no_extra}

abbrev used_one : ℕ → ℤ → SocketState → ℕ
used_one x fd SocketState.none = 0
used_one x fd SocketState.scheduled = is_fd x fd
used_one x fd SocketState.ready = is_fd x fd
used_one x fd SocketState.done = is_fd x fd

-- How many paths before the end were tried to which `socket` gave `x`; the first has the number `k`.
abbrev pub used_count : ℕ → (ℕ → ℤ) → ℕ → List AddrPath → ℕ
used_count x fd k [] = 0
used_count x fd k (p ∷ ps) =
    if p.node.family == 0 then 0 else used_one x (fd k) p.socket.state + used_count x fd (suc k) ps

count-append : (x : ℕ) (fds gds : List ℤ) → count x (fds ++ gds) ≡ count x fds + count x gds
count-append x [] gds = omega arith
count-append x (fd ∷ fds) gds = omega (arith, count-append x fds gds)

open_fd-count : (x : ℕ) (fd : ℤ) → is_fd x fd ≤ count x (open_fd fd)
open_fd-count x (pos n) = omega arith
open_fd-count x (negsuc n) = omega arith

-- A socket that was tried is done or has its descriptor to be closed.
used-le :
    (x : ℕ) (state : SocketState) (w : Option ℕ) (fd fd' : ℤ)
    → Owns fd (record { state = state; watch = w; fd = fd' })
    → used_one x fd state ≤ done_one x fd state + count x (open_fd fd')
used-le x SocketState.none w fd fd' own = omega arith
used-le x SocketState.scheduled w fd fd' own = rw own (omega (arith, open_fd-count x fd))
used-le x SocketState.ready w fd fd' own = rw own (omega (arith, open_fd-count x fd))
used-le x SocketState.done w fd fd' own = omega arith

used_count-le :
    (x : ℕ) (fd : ℕ → ℤ) (k : ℕ) (ps : List AddrPath)
    → ((i : ℕ) (s : PathSocket) → socket_at i ps ≡ some s → Owns (fd (k + i)) s)
    → used_count x fd k ps ≤ done_count x fd k ps + count x (open_fds ps)
used_count-le x fd k [] own = omega arith
used_count-le x fd k (p ∷ ps) own =
    let first : k + 0 ≡ k = omega arith in
    let here = subst (λ n. Owns (fd n) p.socket) first (own 0 p.socket refl) in
    let rest = used_count-le x fd (suc k) ps λ i s e.
      let next : k + suc i ≡ suc k + i = omega arith in
      subst (λ n. Owns (fd n) s) next (own (suc i) s e) in
    elim (Bool-cases (p.node.family == 0)) [
      | inl end ↦ rw end (omega arith)
      | inr live ↦ rw live (
          omega (
            arith,
            rest,
            count-append x (open_fd p.socket.fd) (open_fds ps),
            used-le x p.socket.state p.socket.watch (fd k) p.socket.fd here,
          ))
    ]

-- Behind `netresolve_connect_free` no descriptor is left over.
pub connect_free-used :
    (net : Net) (c : Connection)
    → Ledger net no_extra c
    → (x : ℕ)
    → used_count x net.fd 0 (paths c) ≤ count x (connect_free c).closed + handed x c.passed
connect_free-used net c l x =
    let (_, closed) = (connect_free-Releases c).0 in
    let used = used_count-le x net.fd 0 (paths c) λ i s e.
      let same : i ≡ 0 + i = omega arith in subst (λ n. Owns (net.fd n) s) same (l.own i s e) in
    rw closed (omega (arith, l.balance x, used, count-append x c.closed (open_fds (paths c))))
