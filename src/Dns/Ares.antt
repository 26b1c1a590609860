-- ===== src/Dns/Ares.antt =====
-- backends/dns.c over c-ares: the descriptors that are watched, and the callback of a question. The
-- watches are numbered as `netresolve_watch_add` gives them out.
pub mod Processing
pub mod Settling
pub mod Watches
use netresolve.Prelude.{
  ℕ, ℤ, zero, suc, Bool, true, false, not, Option, none, some, List, [], ◌∷◌, ◌++◌, length, ◌==◌,
  get_elem?, if◌then◌else◌,
}
use netresolve.Query.{Call}
use netresolve.Dns.{Server, Lookup, Build, Library, Priv, call, aborted, decrement, remove}
use netresolve.Dns.Answers.{apply_answer, check}

-- What `ares_fds` reports of a descriptor below the bound, in the order of the descriptors.
pub record FdUse : Type 0 where
  pub readable : Bool
  pub writable : Bool

-- struct priv_dns with the fields for c-ares: `fds` are `rfds` and `wfds` below `nfds`, and
-- `watches` is the array; `next_watch` is the number of the next watch.
pub record Channel : Type 0 where
  pub priv : Priv
  pub fds : List FdUse
  pub watches : List ℕ
  pub next_watch : ℕ

-- `netresolve_watch_add` for the element `fd` of the array, if the descriptor is in the set
pub watch_if : Bool → ℕ → ℕ → ℕ × ℕ × List Call → ℕ × ℕ × List Call
watch_if false fd n (watch, next, calls) = (watch, next, calls)
watch_if true fd n (watch, next, calls) = (next, suc next, calls ++ Call.watch_add fd n ∷ [])

-- The loop of `watch_file_descriptors` from `fd` on: the array, the next watch and the calls. The
-- numbers 0 and 1 stand for a watch for reading and one for writing. An element that is not set is 0.
pub watch_loop : ℕ → ℕ → List FdUse → List ℕ × ℕ × List Call
watch_loop fd next [] = ([], next, [])
watch_loop fd next (u ∷ us) =
    let (watch, next', calls) = watch_if u.writable fd 1 (watch_if u.readable fd 0 (0, next, [])) in
    let (watches, last, more) = watch_loop (suc fd) next' us in
    (watch ∷ watches, last, calls ++ more)

abbrev pub calls_made : List Call → Priv → Priv
calls_made cs p = record p { calls = p.calls ++ cs }

abbrev pub abort_unless : Bool → Priv → Priv
abort_unless b p = if b then p else aborted p

-- `watch_file_descriptors`, with what `ares_fds` reports
pub watch_file_descriptors : List FdUse → Channel → Channel
watch_file_descriptors fds c =
    let (watches, next, calls) = watch_loop 0 c.next_watch fds in
    record {
      priv = calls_made calls (abort_unless (length c.fds == 0) c.priv);
      fds = fds;
      watches = watches;
      next_watch = next;
    }

-- the loop of `unwatch_file_descriptors`
pub unwatch_loop : List FdUse → List ℕ → List Call
unwatch_loop [] watches = []
unwatch_loop (u ∷ us) [] = []
unwatch_loop (u ∷ us) (w ∷ ws) =
    let rest = unwatch_loop us ws in if u.readable then Call.watch_remove w ∷ rest else rest

-- `unwatch_file_descriptors`
pub unwatch_file_descriptors : Channel → Channel
unwatch_file_descriptors c = record c {
  priv = calls_made (unwatch_loop c.fds c.watches) (abort_unless (not (length c.fds == 0)) c.priv);
  fds = [];
}

-- The status of an answer of c-ares, as far as the code tells them apart.
pub data AresStatus : Type 0 where
  success not_found destruction other : AresStatus

-- the `switch` of `aresdns_callback`
pub ares_status : Library → Server → AresStatus → List ℕ → Priv → Priv
ares_status lib server AresStatus.success abuf p = check Build.ares (apply_answer lib server abuf p)
ares_status lib server AresStatus.not_found abuf p =
    check Build.ares (apply_answer lib server abuf p)
ares_status lib server AresStatus.destruction abuf p = p
ares_status lib server AresStatus.other abuf p = record p { failed = true }

-- `aresdns_callback`
pub aresdns_callback : Library → Server → AresStatus → List ℕ → Priv → Priv
aresdns_callback lib server status abuf p =
    ares_status lib server status abuf (record p { pending = decrement p.pending })

-- What `ares_process_fd` meets: the number of an unanswered look-up, the status and the message.
pub record AresAnswer : Type 0 where
  pub index : ℕ
  pub status : AresStatus
  pub abuf : List ℕ

-- The library calls back on an unanswered look-up, and only on one.
pub ares_answered : Library → AresAnswer → Option Lookup → Priv → Priv
ares_answered lib a none p = p
ares_answered lib a (some l) p =
    aresdns_callback lib l.server a.status a.abuf
      (record p { unanswered = remove a.index p.unanswered })

-- `ares_process_fd` calls back for each answer there is
pub ares_process : Library → List AresAnswer → Priv → Priv
ares_process lib [] p = p
ares_process lib (a ∷ answers) p =
    ares_process lib answers (ares_answered lib a (get_elem? p.unanswered a.index) p)

abbrev with_priv : (Priv → Priv) → Channel → Channel
with_priv f c = record c { priv = f c.priv }

-- `dispatch`, with the answers that are there, and what `ares_fds` reports behind them
unfoldable pub dispatch : Library → List AresAnswer → List FdUse → Channel → Channel
dispatch lib answers fds c =
    with_priv (check Build.ares) (
      watch_file_descriptors fds
        (with_priv (ares_process lib answers) (unwatch_file_descriptors c)))

-- The state behind the functions of Setup: there are watches, if they asked their questions.
pub start_channel : Bool → List FdUse → ℕ → Priv → Channel
start_channel started fds next p =
    let c : Channel = record { priv = p; fds = []; watches = []; next_watch = next } in
    if started then watch_file_descriptors fds c else c

-- Several events, each with its answers and with the descriptors that are reported behind them.
pub dispatch_all : Library → List (List AresAnswer × List FdUse) → Channel → Channel
dispatch_all lib [] c = c
dispatch_all lib ((answers, fds) ∷ rounds) c = dispatch_all lib rounds (dispatch lib answers fds c)

-- `cleanup` of the build over c-ares
unfoldable pub cleanup : Channel → Channel
cleanup c = if length c.fds == 0 then c else unwatch_file_descriptors c
