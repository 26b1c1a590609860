-- ===== src/Dns/Unbound/Settling.antt =====
-- How backends/dns.c over libunbound ends its query behind the answers.
use netresolve.Prelude.{
  if_both, pos, CString, inr, ◌≢◌, ◌≡◌, refl, false, Option, none, some, List, [], ◌∷◌, All,
  get_elem?,
}
use netresolve.Dns.{Server, Lookup, Library, Priv}
use netresolve.Types.{Request}
use netresolve.Dns.Setup.{Session}
use netresolve.Dns.Starting.{HasStarted, HasStarted-IsRunning, IsRunning-IsDue}
use netresolve.Dns.Laws.{apply_answer-keeps}
use netresolve.Dns.Endings.{
  IsRunning, IsDue, Counts, IsRunning-Laws, IsQuerying, check-IsDue, taken-IsRunning,
}
use netresolve.Dns.Unbound.{UbResult, UbAnswer, ub_result, ubdns_callback, ub_answered, ub_dispatch}

ub_result-IsRunning :
    (lib : Library)
    → Counts lib
    → (server : Server) (r : UbResult) (p : Priv) → IsRunning p
    → IsRunning (ub_result lib server r p)
unfolding ub_result
ub_result-IsRunning lib taken server r p h =
    let laws = IsRunning-Laws lib taken in
    let trusted =
      if_both IsRunning r.secure p (record p { secure = false }) h (laws.distrust p h) in
    if_both IsRunning r.bogus _ _ (laws.fail _ (laws.distrust _ trusted))
      (apply_answer-keeps lib IsRunning laws server r.packet _ trusted)

-- the status of an answer that is no error
abbrev pub IsFine : UbAnswer → Type 0
IsFine a = a.status ≡ pos 0

ub_answered-IsDue :
    (lib : Library)
    → Counts lib
    → (a : UbAnswer) (p : Priv) (asked : Option Lookup) → get_elem? p.unanswered a.index ≡ asked
    → IsFine a
    → IsDue p
    → IsDue (ub_answered lib a asked p)
unfolding ub_answered ubdns_callback
ub_answered-IsDue lib taken a p none e fine d = d
ub_answered-IsDue lib taken a p (some l) e fine d = rw fine (
    check-IsDue _ IsQuerying.unbound
      (ub_result-IsRunning lib taken l.server a.result _ (taken-IsRunning p a.index l e d)))

pub ub_dispatch-IsDue :
    (lib : Library)
    → Counts lib
    → (answers : List UbAnswer) (p : Priv) → All IsFine answers
    → IsDue p
    → IsDue (ub_dispatch lib answers p)
unfolding ub_dispatch
ub_dispatch-IsDue lib taken [] p fine d = d
ub_dispatch-IsDue lib taken (a ∷ answers) p fine d =
    ub_dispatch-IsDue lib taken answers _ fine.1
      (ub_answered-IsDue lib taken a p (get_elem? p.unanswered a.index) refl fine.0 d)

-- Take a query that has been started over libunbound, forward, reverse or for a DNS record, and that
-- has asked a question. If the library takes each question, then behind any answers without an error
-- as their status, whatever they say, the counter is the number of the look-ups without an answer, and
-- the query has not been ended if there are such look-ups, and otherwise just once, as failed if
-- something has failed: also the look-ups that service records lead to are waited for.
pub query-IsDue :
    (lib : Library) {session : Session} {settings : List CString} {r : Request} {p : Priv}
    → HasStarted lib session settings r p
    → p.unanswered ≢ []
    → ((l : Lookup) → lib.refuses l ≡ false)
    → (answers : List UbAnswer) → All IsFine answers
    → IsDue (ub_dispatch lib answers p)
query-IsDue lib started some_left taken answers fine =
    ub_dispatch-IsDue lib (λ l. inr (taken l)) answers _ fine
      (IsRunning-IsDue _ some_left
        (HasStarted-IsRunning lib (λ l. inr (taken l)) started some_left))
