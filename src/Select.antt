-- ===== src/Select.antt =====
-- lib/select.c: the event loop over select. A failed assertion is `none`. A set of descriptors is a
-- function, so the limit FD_SETSIZE of fd_set is not modelled; memory is taken to suffice.
mod Tight
mod Examples
use netresolve.Prelude.{
  ℕ, zero, suc, ◌+◌, ◌-◌, Bool, true, false, not, ◌&&◌, ◌||◌, Option, none, some, List, [], ◌∷◌,
  ◌++◌, ltb, leb, ◌==◌, ◌>>=◌, if◌then◌else◌,
}

-- fd_set
abbrev pub FdSet : Type 0
FdSet = ℕ → Bool

-- struct netresolve_select; `sources` has `nfds` elements
pub record Loop : Type 0 where
  pub rfds : FdSet
  pub wfds : FdSet
  pub nfds : ℕ
  pub sources : ℕ → ℕ

-- what `calloc` leaves in `netresolve_select_new`
abbrev pub new_loop : Loop
new_loop = record { rfds = λ fd. false; wfds = λ fd. false; nfds = 0; sources = λ fd. 0 }

-- POLLIN and POLLOUT
pub record PollEvents : Type 0 where
  pub read : Bool
  pub write : Bool

-- FD_SET, or FD_CLR
abbrev pub assign : ℕ → Bool → FdSet → FdSet
assign fd b fds i = if i == fd then b else fds i

abbrev pub is_watched : Loop → ℕ → Bool
is_watched loop fd = loop.rfds fd || loop.wfds fd

abbrev put_source : ℕ → ℕ → (ℕ → ℕ) → ℕ → ℕ
put_source fd source sources i = if i == fd then source else sources i

-- `add_watch`
pub add_watch : ℕ → PollEvents → ℕ → Loop → Option Loop
add_watch fd events source loop =
    if is_watched loop fd || not (events.read || events.write)
    then none
    else some (record {
      rfds = if events.read then assign fd true loop.rfds else loop.rfds;
      wfds = if events.write then assign fd true loop.wfds else loop.wfds;
      nfds = if leb loop.nfds fd then fd + 1 else loop.nfds;
      sources = put_source fd source loop.sources;
    })

-- the loop of `remove_watch` that lets `nfds` go down to the last descriptor watched
trim : FdSet → FdSet → ℕ → ℕ
trim rfds wfds zero = 0
trim rfds wfds (suc n) = let rest = trim rfds wfds n in if rfds n || wfds n then suc n else rest

-- `remove_watch`
pub remove_watch : ℕ → Loop → Option Loop
unfolding trim
remove_watch fd loop =
    let rfds = assign fd false loop.rfds in
    let wfds = assign fd false loop.wfds in
    if is_watched loop fd
    then some (record loop { rfds = rfds; wfds = wfds; nfds = trim rfds wfds loop.nfds })
    else none

-- `cleanup`, whether its assertion holds
pub cleanup : Loop → Bool
cleanup loop = loop.nfds == 0

-- the loop of `netresolve_select_apply_fds` over the descriptors below `n`, on a set and what is added
apply_set : FdSet → ℕ → FdSet → FdSet
apply_set watched zero fds = fds
apply_set watched (suc n) fds =
    let rest = apply_set watched n fds in if watched n then assign n true rest else rest

-- `netresolve_select_apply_fds`
pub apply_fds : Loop → FdSet → FdSet → ℕ × FdSet × FdSet
unfolding apply_set
apply_fds loop rfds wfds =
    (loop.nfds, apply_set loop.rfds loop.nfds rfds, apply_set loop.wfds loop.nfds wfds)

-- `netresolve_dispatch` for a source and one of the two events; `true` stands for POLLIN
abbrev pub Dispatch : Type 0
Dispatch = ℕ → Bool → Loop → Loop

-- `netresolve_select_dispatch_read`
pub dispatch_read : Dispatch → ℕ → Loop → Option Loop
dispatch_read dispatch fd loop =
    if ltb fd loop.nfds && loop.rfds fd then some (dispatch (loop.sources fd) true loop) else none

-- `netresolve_select_dispatch_write`
pub dispatch_write : Dispatch → ℕ → Loop → Option Loop
dispatch_write dispatch fd loop =
    if ltb fd loop.nfds && loop.wfds fd then some (dispatch (loop.sources fd) false loop) else none

-- The loop of `netresolve_select_wait` over `n` descriptors from `fd` on, on the sets that `select`
-- left.
dispatch_from : Dispatch → FdSet → FdSet → ℕ → ℕ → Loop → Option Loop
unfolding dispatch_read dispatch_write
dispatch_from dispatch rfds wfds zero fd loop = some loop
dispatch_from dispatch rfds wfds (suc n) fd loop =
    let read = if rfds fd then dispatch_read dispatch fd loop else some loop in
    read
    >>= (λ l. if wfds fd then dispatch_write dispatch fd l else some l)
    >>= dispatch_from dispatch rfds wfds n (fd + 1)

-- `netresolve_select_wait`; `select` gives the descriptors that are ready, out of those that it is
-- asked for
pub wait : (ℕ → FdSet → FdSet → FdSet × FdSet) → Dispatch → Loop → Option Loop
unfolding apply_fds dispatch_from
wait select dispatch loop =
    let (nfds, asked_r, asked_w) = apply_fds loop (λ fd. false) (λ fd. false) in
    let (rfds, wfds) = select nfds asked_r asked_w in dispatch_from dispatch rfds wfds nfds 0 loop
