-- ===== src/Dns/Ares/Processing.antt =====
-- How a query of backends/dns.c stands while c-ares processes its answers.
use netresolve.Prelude.{
  ℕ, pos, ◌≡◌, refl, ◌∙◌, ap, sym, ◌⊎◌, inl, inr, Bool, true, false, Option, none, some, List, [],
  ◌∷◌, get_elem?, length,
}
use netresolve.Types.{State}
use netresolve.Query.{Call}
use netresolve.Machine.Failover.{verdict}
use netresolve.Dns.{Server, Lookup, Library, Priv}
use netresolve.Dns.Laws.{apply_answer-keeps}
use netresolve.Dns.Endings.{
  some_ne_none, endings, ending, due, IsRunning, IsDue, Counts, IsRunning-Laws, IsQuerying,
  check-IsDue, remove-IsRunning,
}
use netresolve.Dns.Ares.{
  AresStatus, ares_status, aresdns_callback, AresAnswer, ares_answered, ares_process,
}

-- The state that a backend leaves a waiting query in, by whether something has failed.
abbrev pub outcome : Bool → State
outcome true = State.error
outcome false = State.resolved

-- While the answers are processed, the last of them may have left the query without an end.
pub record IsProcessing (p : Priv) : Type 0 where
  pub counted : p.pending ≡ pos (length p.unanswered)
  pub open_or_ended :
      (endings p.calls ≡ [])
      ⊎ ((p.unanswered ≡ []) × (verdict State.waiting p.calls ≡ outcome p.failed))

pub verdict-endings : (s : State) (cs : List Call) → verdict s cs ≡ verdict s (endings cs)
verdict-endings s [] = refl
verdict-endings s (Call.finished ∷ cs) = verdict-endings State.resolved cs
verdict-endings s (Call.failed ∷ cs) = verdict-endings State.error cs
verdict-endings s (_ ∷ cs) = verdict-endings s cs

verdict-ending : (failed : Bool) → verdict State.waiting (ending failed ∷ []) ≡ outcome failed
verdict-ending true = refl
verdict-ending false = refl

due-open_or_ended :
    (failed : Bool) (ls : List Lookup) (calls : List Call)
    → endings calls ≡ due failed ls
    → (endings calls ≡ []) ⊎ ((ls ≡ []) × (verdict State.waiting calls ≡ outcome failed))
due-open_or_ended failed [] calls e = inr (
  refl,
  verdict-endings State.waiting calls ∙ ap (verdict State.waiting) e ∙ verdict-ending failed,
)
due-open_or_ended failed (l ∷ ls) calls e = inl e

IsDue-IsProcessing : (p : Priv) → IsDue p → IsProcessing p
IsDue-IsProcessing p d = record {
  counted = d.counted;
  open_or_ended = due-open_or_ended p.failed p.unanswered p.calls d.ended;
}

pub IsRunning-IsProcessing : (p : Priv) → IsRunning p → IsProcessing p
IsRunning-IsProcessing p r = record { counted = r.counted; open_or_ended = inl r.unended }

still_open :
    (ls : List Lookup) (i : ℕ) (l : Lookup) {A : Type 0} {B : Type 0}
    → get_elem? ls i ≡ some l
    → A ⊎ ((ls ≡ []) × B)
    → A
still_open ls i l e (inl a) = a
still_open ls i l e (inr (empty, b)) =
    absurd (some_ne_none (sym (ap (λ xs. get_elem? xs i) empty) ∙ e))

ares_status-IsProcessing :
    (lib : Library)
    → Counts lib
    → (server : Server) (status : AresStatus) (abuf : List ℕ) (p : Priv) → IsRunning p
    → IsProcessing (ares_status lib server status abuf p)
unfolding ares_status
ares_status-IsProcessing lib taken server AresStatus.success abuf p r = IsDue-IsProcessing _ (
    check-IsDue _ IsQuerying.ares
      (apply_answer-keeps lib IsRunning (IsRunning-Laws lib taken) server abuf p r))
ares_status-IsProcessing lib taken server AresStatus.not_found abuf p r = IsDue-IsProcessing _ (
    check-IsDue _ IsQuerying.ares
      (apply_answer-keeps lib IsRunning (IsRunning-Laws lib taken) server abuf p r))
ares_status-IsProcessing lib taken server AresStatus.destruction abuf p r =
    IsRunning-IsProcessing p r
ares_status-IsProcessing lib taken server AresStatus.other abuf p r =
    IsRunning-IsProcessing _ ((IsRunning-Laws lib taken).fail p r)

ares_answered-IsProcessing :
    (lib : Library)
    → Counts lib
    → (a : AresAnswer) (p : Priv) (asked : Option Lookup) → get_elem? p.unanswered a.index ≡ asked
    → IsProcessing p
    → IsProcessing (ares_answered lib a asked p)
unfolding ares_answered aresdns_callback
ares_answered-IsProcessing lib taken a p none e h = h
ares_answered-IsProcessing lib taken a p (some l) e h =
    ares_status-IsProcessing lib taken l.server a.status a.abuf _ (
      remove-IsRunning p a.index l e (record {
        counted = h.counted;
        unended = still_open p.unanswered a.index l e h.open_or_ended;
      }))

pub ares_process-IsProcessing :
    (lib : Library)
    → Counts lib
    → (answers : List AresAnswer) (p : Priv) → IsProcessing p
    → IsProcessing (ares_process lib answers p)
unfolding ares_process
ares_process-IsProcessing lib taken [] p h = h
ares_process-IsProcessing lib taken (a ∷ answers) p h =
    ares_process-IsProcessing lib taken answers _
      (ares_answered-IsProcessing lib taken a p (get_elem? p.unanswered a.index) refl h)
