-- ===== src/Dns/Ares/Settling.antt =====
-- How backends/dns.c over c-ares ends its query behind the answers that it dispatches.
use netresolve.Prelude.{
  if_both, ℕ, pos, suc, ◌≡◌, ◌≢◌, refl, ◌∙◌, ap, sym, ◌⊎◌, inl, inr, Bool, true, false, not, ◌&&◌,
  List, [], ◌∷◌, ◌++◌, CString, length, ◌==◌,
}
use mathlib.Core.Path.{subst}
use netresolve.Types.{State, Request}
use netresolve.Query.{Call}
use netresolve.Machine.Failover.{verdict, verdict-append}
use netresolve.Dns.{Lookup, Build, Library, Priv, aborted}
use netresolve.Dns.Setup.{Session}
use netresolve.Dns.Answers.{end_with, settle, check_pending, check}
use netresolve.Dns.Endings.{not-not, endings, endings-behind, IsRunning, Counts, end_with-rest}
use netresolve.Dns.Starting.{HasStarted, HasStarted-IsRunning}
use netresolve.Dns.Ares.{
  FdUse, Channel, watch_if, watch_loop, watch_file_descriptors, unwatch_loop,
  unwatch_file_descriptors, AresAnswer, calls_made, abort_unless, dispatch, dispatch_all,
  start_channel,
}
use netresolve.Dns.Ares.Processing.{
  outcome, IsProcessing, verdict-endings, IsRunning-IsProcessing, ares_process-IsProcessing,
}

-- What the calls of the backend say, by whether there are look-ups without an answer.
abbrev pub Concludes : Bool → List Lookup → List Call → Type 0
Concludes failed [] calls = verdict State.waiting calls ≡ outcome failed
Concludes failed (l ∷ ls) calls = endings calls ≡ []

pub record IsConcluded (p : Priv) : Type 0 where
  pub counted : p.pending ≡ pos (length p.unanswered)
  pub concluded : Concludes p.failed p.unanswered p.calls

watch_if-endings :
    (b : Bool) (fd n watch next : ℕ) (calls : List Call)
    → endings calls ≡ []
    → endings (watch_if b fd n (watch, next, calls)).2 ≡ []
unfolding watch_if
watch_if-endings false fd n watch next calls e = e
watch_if-endings true fd n watch next calls e = endings-behind calls (Call.watch_add fd n ∷ []) e

watch_loop-endings : (fd next : ℕ) (us : List FdUse) → endings (watch_loop fd next us).2 ≡ []
unfolding watch_loop
watch_loop-endings fd next [] = refl
watch_loop-endings fd next (u ∷ us) =
    let first = watch_if u.readable fd 0 (0, next, []) in
    endings-behind (watch_if u.writable fd 1 first).2 _ (
      watch_if-endings u.writable fd 1 first.0 first.1 first.2
        (watch_if-endings u.readable fd 0 0 next [] refl))
    ∙ watch_loop-endings (suc fd) (watch_if u.writable fd 1 first).1 us

unwatch_loop-endings : (us : List FdUse) (watches : List ℕ) → endings (unwatch_loop us watches) ≡ []
unfolding unwatch_loop
unwatch_loop-endings [] watches = refl
unwatch_loop-endings (u ∷ us) [] = refl
unwatch_loop-endings (u ∷ us) (w ∷ ws) =
    if_both (λ cs. endings cs ≡ []) u.readable _ _ (unwatch_loop-endings us ws)
      (unwatch_loop-endings us ws)

-- calls that do not end the query, behind others
quiet_open_or_ended :
    (failed : Bool) (ls : List Lookup) (cs ds : List Call)
    → endings ds ≡ []
    → (endings cs ≡ []) ⊎ ((ls ≡ []) × (verdict State.waiting cs ≡ outcome failed))
    → (endings (cs ++ ds) ≡ []) ⊎ ((ls ≡ []) × (verdict State.waiting (cs ++ ds) ≡ outcome failed))
quiet_open_or_ended failed ls cs ds quiet (inl e) = inl (endings-behind cs ds e ∙ quiet)
quiet_open_or_ended failed ls cs ds quiet (inr (empty, v)) = inr (
  empty,
  verdict-append State.waiting cs ds
      ∙ ap (λ s. verdict s ds) v
      ∙ verdict-endings (outcome failed) ds
      ∙ ap (verdict (outcome failed)) quiet,
)

quiet-IsProcessing :
    (ds : List Call) (b : Bool) (p : Priv)
    → endings ds ≡ []
    → IsProcessing p
    → IsProcessing (calls_made ds (abort_unless b p))
quiet-IsProcessing ds b p quiet h =
    if_both (λ q. IsProcessing (calls_made ds q)) b p (aborted p)
      (record {
        counted = h.counted;
        open_or_ended = quiet_open_or_ended p.failed p.unanswered p.calls ds quiet h.open_or_ended;
      })
      (record {
        counted = h.counted;
        open_or_ended = quiet_open_or_ended p.failed p.unanswered p.calls ds quiet h.open_or_ended;
      })

watch-IsProcessing :
    (fds : List FdUse) (c : Channel)
    → IsProcessing c.priv
    → IsProcessing (watch_file_descriptors fds c).priv
unfolding watch_file_descriptors
watch-IsProcessing fds c h =
    quiet-IsProcessing _ (length c.fds == 0) c.priv (watch_loop-endings 0 c.next_watch fds) h

unwatch-IsProcessing :
    (c : Channel) → IsProcessing c.priv → IsProcessing (unwatch_file_descriptors c).priv
unfolding unwatch_file_descriptors
unwatch-IsProcessing c h =
    quiet-IsProcessing _ (not (length c.fds == 0)) c.priv (unwatch_loop-endings c.fds c.watches) h

end_with-verdict :
    (ok : Bool) (p : Priv) → verdict State.waiting (end_with ok p).calls ≡ outcome (not ok)
unfolding end_with
end_with-verdict true p = verdict-append State.waiting p.calls (Call.finished ∷ [])
end_with-verdict false p = verdict-append State.waiting p.calls (Call.failed ∷ [])

settle-IsConcluded :
    (p : Priv) → p.pending ≡ pos 0 → p.unanswered ≡ [] → IsConcluded (settle Build.ares p)
unfolding settle
settle-IsConcluded p zero_pending empty =
    let (same_pending, same_unanswered, same_failed) =
      end_with-rest (not p.failed) (p.answered && p.secure) p in
    let q = settle Build.ares p in
    record {
      counted =
          same_pending ∙ zero_pending ∙ ap (λ ls. pos (length ls)) (sym (same_unanswered ∙ empty));
      concluded =
          subst (λ ls. Concludes q.failed ls q.calls) (sym (same_unanswered ∙ empty))
            (end_with-verdict (not p.failed) _ ∙ ap outcome (not-not p.failed ∙ sym same_failed));
    }

not_empty : {l : Lookup} {ls : List Lookup} → (l ∷ ls) ≡ [] → ⊥
not_empty e = cc

Concludes-open :
    (failed : Bool) (l : Lookup) (ls us : List Lookup) (calls : List Call) {B : Type 0}
    → us ≡ l ∷ ls
    → (endings calls ≡ []) ⊎ ((us ≡ []) × B)
    → Concludes failed us calls
Concludes-open failed l ls us calls e (inl unended) =
    subst (λ us. Concludes failed us calls) (sym e) unended
Concludes-open failed l ls us calls e (inr (empty, b)) = absurd (not_empty (sym e ∙ empty))

check_pending-IsConcluded :
    (ls : List Lookup) (p : Priv)
    → p.unanswered ≡ ls
    → IsProcessing p
    → IsConcluded (check_pending Build.ares (pos (length ls)) p)
unfolding check_pending
check_pending-IsConcluded [] p e h =
    settle-IsConcluded p (h.counted ∙ ap (λ ls. pos (length ls)) e) e
check_pending-IsConcluded (l ∷ ls) p e h = record {
  counted = h.counted;
  concluded = Concludes-open p.failed l ls p.unanswered p.calls e h.open_or_ended;
}

check-IsConcluded : (p : Priv) → IsProcessing p → IsConcluded (check Build.ares p)
unfolding check
check-IsConcluded p h =
    subst (λ n. IsConcluded (check_pending Build.ares n p)) (sym h.counted)
      (check_pending-IsConcluded p.unanswered p refl h)

concluded_open_or_ended :
    (failed : Bool) (ls : List Lookup) (calls : List Call)
    → Concludes failed ls calls
    → (endings calls ≡ []) ⊎ ((ls ≡ []) × (verdict State.waiting calls ≡ outcome failed))
concluded_open_or_ended failed [] calls v = inr (refl, v)
concluded_open_or_ended failed (l ∷ ls) calls e = inl e

IsConcluded-IsProcessing : (p : Priv) → IsConcluded p → IsProcessing p
IsConcluded-IsProcessing p k = record {
  counted = k.counted;
  open_or_ended = concluded_open_or_ended p.failed p.unanswered p.calls k.concluded;
}

dispatch-IsConcluded :
    (lib : Library)
    → Counts lib
    → (answers : List AresAnswer) (fds : List FdUse) (c : Channel) → IsProcessing c.priv
    → IsConcluded (dispatch lib answers fds c).priv
unfolding dispatch
dispatch-IsConcluded lib taken answers fds c h = check-IsConcluded _ (
    watch-IsProcessing fds _
      (ares_process-IsProcessing lib taken answers _ (unwatch-IsProcessing c h)))

dispatch_all-IsConcluded :
    (lib : Library)
    → Counts lib
    → (rounds : List (List AresAnswer × List FdUse)) (c : Channel) → IsConcluded c.priv
    → IsConcluded (dispatch_all lib rounds c).priv
unfolding dispatch_all
dispatch_all-IsConcluded lib taken [] c k = k
dispatch_all-IsConcluded lib taken ((answers, fds) ∷ rounds) c k =
    dispatch_all-IsConcluded lib taken rounds _
      (dispatch-IsConcluded lib taken answers fds c (IsConcluded-IsProcessing c.priv k))

start-IsProcessing :
    (started : Bool) (fds : List FdUse) (next : ℕ) (p : Priv)
    → IsRunning p
    → IsProcessing (start_channel started fds next p).priv
unfolding start_channel
start-IsProcessing true fds next p r = watch-IsProcessing fds _ (IsRunning-IsProcessing p r)
start-IsProcessing false fds next p r = IsRunning-IsProcessing p r

-- Take a query that has been started over c-ares, forward, reverse or for a DNS record, and that has
-- asked a question. Behind any events, of which there is at least one, whatever answers come with
-- them, errors included, the counter is the number of the look-ups without an answer; the query has
-- not been ended if there are such look-ups, and otherwise the calls leave it in error if something
-- has failed, and resolved if not.
pub query-IsConcluded :
    (lib : Library) {session : Session} {settings : List CString} {r : Request} {p : Priv}
    → HasStarted lib session settings r p
    → p.unanswered ≢ []
    → lib.build ≡ Build.ares
    → (started : Bool) (fds : List FdUse) (next : ℕ) (answers : List AresAnswer) (fds' : List FdUse)
      (rounds : List (List AresAnswer × List FdUse))
    → IsConcluded
        (dispatch_all lib ((answers, fds') ∷ rounds) (start_channel started fds next p)).priv
unfolding dispatch_all
query-IsConcluded lib started some_left e watched fds next answers fds' rounds =
    dispatch_all-IsConcluded lib (λ l. inl e) rounds _
      (dispatch-IsConcluded lib (λ l. inl e) answers fds' _
        (start-IsProcessing watched fds next _
          (HasStarted-IsRunning lib (λ l. inl e) started some_left)))
