-- ===== src/Select/Tight.antt =====
-- The watches of lib/select.c as a map from descriptors, and the bound on these.
use netresolve.Prelude.{
  ℕ, zero, suc, ◌+◌, ◌<◌, ◌≡◌, ◌≢◌, ap, refl, ◌⊎◌, inl, inr, Bool, true, false, ◌||◌, Option, none,
  some, arith, Bool-cases, leb, ◌==◌, ==_iff, if◌then◌else◌,
}
use netresolve.Select.{
  FdSet, Loop, PollEvents, assign, is_watched, put_source, add_watch, trim, remove_watch,
}

-- `nfds` is one more than the greatest descriptor watched, or zero.
abbrev pub IsTight : Loop → Type 0
IsTight loop =
    ((fd : ℕ) → is_watched loop fd ≡ true → fd < loop.nfds)
    × ((loop.nfds ≡ 0) ⊎ ((n : ℕ) × (loop.nfds ≡ suc n) × (is_watched loop n ≡ true)))

-- A watch as it was added.
pub record Entry : Type 0 where
  pub events : PollEvents
  pub source : ℕ

-- The map that the loop stands for.
abbrev pub view : Loop → ℕ → Option Entry
view loop fd =
    if is_watched loop fd
    then some (record {
      events = record { read = loop.rfds fd; write = loop.wfds fd };
      source = loop.sources fd;
    })
    else none

abbrev both : FdSet → FdSet → ℕ → Bool
both rfds wfds fd = rfds fd || wfds fd

apart : (p : ℕ → Bool) (a b : ℕ) → p a ≡ true → p b ≡ false → a ≢ b
apart p a b h k e = let same = ap p e in cc (same, h, k)

trim-below :
    (rfds wfds : FdSet) (n fd : ℕ) → both rfds wfds fd ≡ true → fd < n → fd < trim rfds wfds n
unfolding trim
trim-below rfds wfds zero fd h k = ground arith
trim-below rfds wfds (suc n) fd h k = elim (Bool-cases (both rfds wfds n)) [
  | inl e ↦ rw e (omega (arith, k))
  | inr e ↦ rw e (trim-below rfds wfds n fd h (omega (arith, k, apart (both rfds wfds) fd n h e)))
]

trim-last :
    (rfds wfds : FdSet) (n : ℕ)
    → (trim rfds wfds n ≡ 0) ⊎ ((m : ℕ) × (trim rfds wfds n ≡ suc m) × (both rfds wfds m ≡ true))
unfolding trim
trim-last rfds wfds zero = inl refl
trim-last rfds wfds (suc n) = elim (Bool-cases (both rfds wfds n)) [
  | inl e ↦ rw e (inr (n, refl, e))
  | inr e ↦ rw e (trim-last rfds wfds n)
]

-- The loop that `add_watch` makes, where its assertions hold.
added : ℕ → PollEvents → ℕ → Loop → Loop
added fd events source loop = record {
  rfds = if events.read then assign fd true loop.rfds else loop.rfds;
  wfds = if events.write then assign fd true loop.wfds else loop.wfds;
  nfds = if leb loop.nfds fd then fd + 1 else loop.nfds;
  sources = put_source fd source loop.sources;
}

abbrev pub has_events : PollEvents → Bool
has_events events = events.read || events.write

set_bit :
    (b : Bool) (fd i : ℕ) (fds : FdSet)
    → fds fd ≡ false
    → (if b then assign fd true fds else fds) i ≡ (if i == fd then b else fds i)
set_bit true fd i fds h = refl
set_bit false fd i fds h = elim (Bool-cases (i == fd)) [
  | inl e ↦ let (to, _) = ==_iff i fd in let same : i ≡ fd = to e in rw (e, same) h
  | inr e ↦ rw e refl
]

neither : (a b : Bool) → (a || b) ≡ false → (a ≡ false) × (b ≡ false)
neither false false h = (refl, refl)
neither true b h = cc
neither false true h = cc

added-view :
    (fd : ℕ) (events : PollEvents) (source : ℕ) (loop : Loop) (i : ℕ)
    → is_watched loop fd ≡ false
    → has_events events ≡ true
    → view (added fd events source loop) i
      ≡ (if i == fd then some (record { events = events; source = source }) else view loop i)
unfolding added
added-view fd events source loop i free some_event =
    let (r, w) = neither (loop.rfds fd) (loop.wfds fd) free in
    let r' = set_bit events.read fd i loop.rfds r in
    let w' = set_bit events.write fd i loop.wfds w in
    elim (Bool-cases (i == fd)) [
      | inl e ↦ rw (r', w', e, some_event) refl
      | inr e ↦ rw (r', w', e) refl
    ]

added-is_watched :
    (fd : ℕ) (events : PollEvents) (source : ℕ) (loop : Loop) (i : ℕ)
    → is_watched loop fd ≡ false
    → has_events events ≡ true
    → is_watched (added fd events source loop) i ≡ (if i == fd then true else is_watched loop i)
unfolding added
added-is_watched fd events source loop i free some_event =
    let (r, w) = neither (loop.rfds fd) (loop.wfds fd) free in
    let r' = set_bit events.read fd i loop.rfds r in
    let w' = set_bit events.write fd i loop.wfds w in
    elim (Bool-cases (i == fd)) [ inl e ↦ rw (r', w', e) some_event | inr e ↦ rw (r', w', e) refl ]

abbrev raised : ℕ → ℕ → ℕ
raised n fd = if leb n fd then fd + 1 else n

raised-lt : (n fd i : ℕ) → (i ≡ fd) ⊎ (i < n) → i < raised n fd
raised-lt n fd i (inl e) = ground arith
raised-lt n fd i (inr h) = ground arith

added-below :
    (fd : ℕ) (events : PollEvents) (source : ℕ) (loop : Loop)
    → is_watched loop fd ≡ false
    → has_events events ≡ true
    → IsTight loop
    → (i : ℕ) → is_watched (added fd events source loop) i ≡ true
    → i < raised loop.nfds fd
added-below fd events source loop free some_event (below, last) i h =
    let watched = added-is_watched fd events source loop i free some_event in
    elim (Bool-cases (i == fd)) [
      | inl e ↦ let (to, _) = ==_iff i fd in raised-lt loop.nfds fd i (inl (to e))
      | inr e ↦
          let old : is_watched loop i ≡ true = rw (watched, e) at h in
          raised-lt loop.nfds fd i (inr (below i old))
    ]

added-last :
    (fd : ℕ) (events : PollEvents) (source : ℕ) (loop : Loop)
    → is_watched loop fd ≡ false
    → has_events events ≡ true
    → IsTight loop
    → (n : ℕ) × (raised loop.nfds fd ≡ suc n) × (is_watched (added fd events source loop) n ≡ true)
added-last fd events source loop free some_event (below, last) =
    let watched : (i : ℕ) → _ = λ i. added-is_watched fd events source loop i free some_event in
    let here : (fd == fd) ≡ true = ground arith in
    elim (Bool-cases (leb loop.nfds fd)) [
      | inl e ↦ (fd, rw e (omega arith), rw (watched fd, here) refl)
      | inr e ↦ elim last [
        | inl z ↦ absurd (ground arith)
        | inr (n, top, w) ↦ (
          n,
          rw e top,
          elim (Bool-cases (n == fd)) [
            | inl k ↦ rw (watched n, k) refl
            | inr k ↦ rw (watched n, k) w
          ],
        )
      ]
    ]

-- Where nothing watches a descriptor yet and there is an event to wait for, `add_watch` succeeds: the
-- descriptor gets the events and the source, the others keep theirs, and `nfds` stays one more than the
-- greatest descriptor watched.
pub add_watch-view :
    (fd : ℕ) (events : PollEvents) (source : ℕ) (loop : Loop)
    → is_watched loop fd ≡ false
    → has_events events ≡ true
    → IsTight loop
    → (l : Loop) × (add_watch fd events source loop ≡ some l)
      × ((i : ℕ)
          → view l i
            ≡ (if i == fd then some (record { events = events; source = source }) else view loop i))
      × IsTight l
unfolding add_watch added
add_watch-view fd events source loop free some_event tight = (
  added fd events source loop,
  rw (free, some_event) refl,
  λ i. added-view fd events source loop i free some_event,
  (
    added-below fd events source loop free some_event tight,
    inr (added-last fd events source loop free some_event tight),
  ),
)

-- The loop that `remove_watch` makes, where its assertion holds.
abbrev removed : ℕ → Loop → Loop
removed fd loop =
    let rfds = assign fd false loop.rfds in
    let wfds = assign fd false loop.wfds in
    record loop { rfds = rfds; wfds = wfds; nfds = trim rfds wfds loop.nfds }

removed-view :
    (fd : ℕ) (loop : Loop) (i : ℕ)
    → view (removed fd loop) i ≡ (if i == fd then none else view loop i)
removed-view fd loop i = elim (Bool-cases (i == fd)) [ inl e ↦ rw e refl | inr e ↦ rw e refl ]

removed-old :
    (fd : ℕ) (loop : Loop) (i : ℕ)
    → is_watched (removed fd loop) i ≡ true
    → is_watched loop i ≡ true
removed-old fd loop i h = elim (Bool-cases (i == fd)) [ inl e ↦ cc (rw e at h) | inr e ↦ rw e at h ]

removed-IsTight : (fd : ℕ) (loop : Loop) → IsTight loop → IsTight (removed fd loop)
removed-IsTight fd loop (below, _) =
    let rfds = assign fd false loop.rfds in
    let wfds = assign fd false loop.wfds in
    (
      λ i h. trim-below rfds wfds loop.nfds i h (below i (removed-old fd loop i h)),
      trim-last rfds wfds loop.nfds,
    )

-- Where a descriptor is watched, `remove_watch` succeeds: that one is not watched any more, the others
-- keep their watches, and `nfds` goes down to one more than the greatest descriptor watched, or zero.
pub remove_watch-view :
    (fd : ℕ) (loop : Loop)
    → is_watched loop fd ≡ true
    → IsTight loop
    → (l : Loop) × (remove_watch fd loop ≡ some l)
      × ((i : ℕ) → view l i ≡ (if i == fd then none else view loop i))
      × IsTight l
unfolding remove_watch
remove_watch-view fd loop watched tight =
    (removed fd loop, rw watched refl, removed-view fd loop, removed-IsTight fd loop tight)
