-- ===== src/Dns/Unbound.antt =====
-- backends/dns.c over libunbound: the callback of a question.
pub mod Settling
pub mod Trust
use netresolve.Prelude.{
  ℕ, ℤ, zero, suc, Bool, true, false, not, Option, none, some, List, [], ◌∷◌, ◌++◌, is_nonzero,
  get_elem?, if◌then◌else◌,
}
use netresolve.Query.{Call}
use netresolve.Dns.{Server, Lookup, Build, Library, Priv, decrement, remove}
use netresolve.Dns.Answers.{apply_answer, check}

-- what the code reads of struct ub_result
pub record UbResult : Type 0 where
  pub secure : Bool
  pub bogus : Bool
  pub packet : List ℕ

-- the part of `ubdns_callback` on a result
unfoldable pub ub_result : Library → Server → UbResult → Priv → Priv
ub_result lib server r p =
    let p' = if r.secure then p else record p { secure = false } in
    if r.bogus
    then record p' { secure = false; failed = true }
    else apply_answer lib server r.packet p'

-- `ubdns_callback`
unfoldable pub ubdns_callback : Library → Server → ℤ → UbResult → Priv → Priv
ubdns_callback lib server status r p =
    let p' = record p { pending = decrement p.pending } in
    if is_nonzero status
    then record p' { failed = true }
    else check Build.unbound (ub_result lib server r p')

-- What `ub_process` meets: the number of an unanswered look-up, the status and the result.
pub record UbAnswer : Type 0 where
  pub index : ℕ
  pub status : ℤ
  pub result : UbResult

-- The library calls back on an unanswered look-up, and only on one.
unfoldable pub ub_answered : Library → UbAnswer → Option Lookup → Priv → Priv
ub_answered lib a none p = p
ub_answered lib a (some l) p =
    ubdns_callback lib l.server a.status a.result
      (record p { unanswered = remove a.index p.unanswered })

-- `dispatch`: `ub_process` calls back for each answer there is
unfoldable pub ub_dispatch : Library → List UbAnswer → Priv → Priv
ub_dispatch lib [] p = p
ub_dispatch lib (a ∷ answers) p =
    ub_dispatch lib answers (ub_answered lib a (get_elem? p.unanswered a.index) p)

-- `cleanup` of libunbound's build, on the watch that `setup` has added, if it has
unfoldable pub cleanup_watch : Option ℕ → List Call
cleanup_watch none = []
cleanup_watch (some watch) = Call.watch_remove watch ∷ []
