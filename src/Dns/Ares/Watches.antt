-- ===== src/Dns/Ares/Watches.antt =====
-- backends/dns.c over c-ares: which watches of the descriptors are removed again.
use netresolve.Prelude.{
  ℕ, zero, suc, ◌+◌, ◌≡◌, ◌∙◌, ap, refl, Bool, true, false, not, ◌==◌, inl, inr, List, [], ◌∷◌,
  ◌++◌, length, All, arith, Bool-cases, if◌then◌else◌,
}
use netresolve.Query.{Call}
use netresolve.Dns.{Priv}
use netresolve.Dns.Ares.{
  FdUse, Channel, watch_if, watch_loop, watch_file_descriptors, unwatch_loop,
  unwatch_file_descriptors, abort_unless,
}

-- how many descriptors wait for writing, and for reading
abbrev pub writables : List FdUse → ℕ
writables [] = 0
writables (u ∷ us) = if u.writable then suc (writables us) else writables us

abbrev pub readables : List FdUse → ℕ
readables [] = 0
readables (u ∷ us) = if u.readable then suc (readables us) else readables us

-- The removal of so many watches with numbers in sequence.
abbrev pub removals : ℕ → ℕ → List Call
removals next zero = []
removals next (suc n) = Call.watch_remove next ∷ removals (suc next) n

abbrev pub IsReadOnly : FdUse → Type 0
IsReadOnly u = u.writable ≡ false

unwatch_loop-watch_loop :
    (fd next : ℕ) (us : List FdUse)
    → All IsReadOnly us
    → unwatch_loop us (watch_loop fd next us).0 ≡ removals next (readables us)
unfolding unwatch_loop watch_loop watch_if
unwatch_loop-watch_loop fd next [] h = refl
unwatch_loop-watch_loop fd next (u ∷ us) h = elim (Bool-cases u.readable) [
  | inl e ↦
      rw (e, h.0)
        (ap (λ cs. Call.watch_remove next ∷ cs)
          (unwatch_loop-watch_loop (suc fd) (suc next) us h.1))
  | inr e ↦ rw (e, h.0) (unwatch_loop-watch_loop (suc fd) next us h.1)
]

watch_loop-count :
    (fd next : ℕ) (us : List FdUse)
    → length (watch_loop fd next us).2
      ≡ length (unwatch_loop us (watch_loop fd next us).0) + writables us
unfolding unwatch_loop watch_loop watch_if
watch_loop-count fd next [] = refl
watch_loop-count fd next (u ∷ us) = elim (Bool-cases u.readable) [
  | inl e ↦ (elim (Bool-cases u.writable) [
    | inl k ↦ rw (e, k) (omega (arith, watch_loop-count (suc fd) (suc (suc next)) us))
    | inr k ↦ rw (e, k) (omega (arith, watch_loop-count (suc fd) (suc next) us))
  ])
  | inr e ↦ (elim (Bool-cases u.writable) [
    | inl k ↦ rw (e, k) (omega (arith, watch_loop-count (suc fd) (suc next) us))
    | inr k ↦ rw (e, k) (omega (arith, watch_loop-count (suc fd) next us))
  ])
]

-- Watches for reading of the descriptors that wait for it.
abbrev pub additions : ℕ → List FdUse → List Call
additions fd [] = []
additions fd (u ∷ us) =
    let rest = additions (suc fd) us in if u.readable then Call.watch_add fd 0 ∷ rest else rest

watch_loop-additions :
    (fd next : ℕ) (us : List FdUse)
    → All IsReadOnly us
    → (watch_loop fd next us).2 ≡ additions fd us
unfolding watch_loop watch_if
watch_loop-additions fd next [] h = refl
watch_loop-additions fd next (u ∷ us) h = elim (Bool-cases u.readable) [
  | inl e ↦
      rw (e, h.0)
        (ap (λ cs. Call.watch_add fd 0 ∷ cs) (watch_loop-additions (suc fd) (suc next) us h.1))
  | inr e ↦ rw (e, h.0) (watch_loop-additions (suc fd) next us h.1)
]

abort_unless-calls : (b : Bool) (p : Priv) → (abort_unless b p).calls ≡ p.calls
abort_unless-calls true p = refl
abort_unless-calls false p = refl

-- If no descriptor waits for writing, then the next unwatch_file_descriptors removes, in order, just
-- the watches that watch_file_descriptors adds, which are one for each descriptor that waits for
-- reading.
pub unwatch-watch :
    (fds : List FdUse) (c : Channel)
    → All IsReadOnly fds
    → (unwatch_file_descriptors (watch_file_descriptors fds c)).priv.calls
      ≡ (c.priv.calls ++ additions 0 fds) ++ removals c.next_watch (readables fds)
unfolding watch_file_descriptors unwatch_file_descriptors
unwatch-watch fds c h =
    ap (λ cs. cs ++ unwatch_loop fds (watch_loop 0 c.next_watch fds).0)
      (abort_unless-calls (not (length fds == 0)) _
        ∙ ap (λ cs. cs ++ (watch_loop 0 c.next_watch fds).2)
            (abort_unless-calls (length c.fds == 0) c.priv))
    ∙ ap (λ cs. (c.priv.calls ++ cs) ++ unwatch_loop fds (watch_loop 0 c.next_watch fds).0)
        (watch_loop-additions 0 c.next_watch fds h)
    ∙ ap (λ cs. (c.priv.calls ++ additions 0 fds) ++ cs)
        (unwatch_loop-watch_loop 0 c.next_watch fds h)
