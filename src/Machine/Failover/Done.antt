-- ===== src/Machine/Failover/Done.antt =====
-- The backends that a query tries when it is done (lib/query.c).
use mathlib.Core.Path.{ap₂}
use netresolve.Prelude.{if_cases, ◌≡◌, refl, ◌∙◌, true, false, List, [], ◌∷◌, ◌++◌, arith}
use netresolve.Types.{State, Request}
use netresolve.Query.{Backend, Query, Env}
use netresolve.Machine.{
  cleanup_query, cleanup_backend, clear_delayed, clear_request_timeout, clear_result_timeout,
  notify, same_state,
}
use netresolve.Machine.Entering.{
  skip_optional, restart, done_behind, enter_done, enter_setup, set_state, enter,
}
use netresolve.Machine.Steady.{cleanup_query-Steady}
use netresolve.Machine.Failover.Chain.{enter_setup-Tried}
use netresolve.Machine.Failover.Search.{chosen, defaulted, reported}

-- The calls of the callback when a query becomes done, with the mandatory backend and those behind it
-- that are left: the calls that trying them makes, and one more in the state that they leave.
abbrev pub done_reports : Env → Request → List State → List Backend → List State
done_reports env r before [] = before ++ State.done ∷ []
done_reports env r before (b ∷ bs) =
    let (s, left) = chosen env (defaulted r) (b ∷ bs) in reported true before left ++ s ∷ []

-- The backends from the next mandatory one on, described by where they stand: all before are optional.
pub data IsNext : List Backend → List Backend → Type 0 where
  last : IsNext [] []
  here : (b : Backend) (bs : List Backend) → b.mandatory ≡ true → IsNext (b ∷ bs) (b ∷ bs)
  skipped :
      (b : Backend) (bs next : List Backend)
      → b.mandatory ≡ false
      → IsNext bs next
      → IsNext (b ∷ bs) next

skip_optional-IsNext : (bs : List Backend) → IsNext bs (skip_optional bs)
unfolding skip_optional
skip_optional-IsNext [] = IsNext.last
skip_optional-IsNext (b ∷ bs) =
    if_cases (IsNext (b ∷ bs)) (b ∷ bs) (skip_optional bs) b.mandatory (IsNext.here b bs)
      (λ e. IsNext.skipped b bs (skip_optional bs) e (skip_optional-IsNext bs))

notify-notified : (q : Query) → q.callback ≡ true → (notify q).notified ≡ q.notified ++ q.state ∷ []
unfolding notify
notify-notified q h = ground arith

done_behind-notified :
    (env : Env) (bs : List Backend) (q : Query)
    → q.callback ≡ true
    → q.state ≡ State.done
    → (notify (restart env bs q)).notified ≡ done_reports env q.request q.notified bs
unfolding restart
done_behind-notified env [] q h t = notify-notified (record q { backend = [] }) h ∙ rw t
done_behind-notified env (b ∷ bs) q h t =
    let q₁ = record q { backend = b ∷ bs; state = State.setup } in
    let tried = enter_setup-Tried env (b ∷ bs) (λ e. cc) q₁ refl refl in
    notify-notified (enter_setup env (b ∷ bs) q₁) (tried.callback ∙ h)
    ∙ rw (tried.notified, tried.state, h)

clear_delayed-backend : (q : Query) → (clear_delayed q).backend ≡ q.backend
unfolding clear_delayed
clear_delayed-backend q = ground arith

clear_request_timeout-backend : (q : Query) → (clear_request_timeout q).backend ≡ q.backend
unfolding clear_request_timeout
clear_request_timeout-backend q = ground arith

clear_result_timeout-backend : (q : Query) → (clear_result_timeout q).backend ≡ q.backend
unfolding clear_result_timeout
clear_result_timeout-backend q = ground arith

cleanup_backend-backend :
    (env : Env) (xs : List Backend) (q : Query) (b : Backend) (bs : List Backend)
    → xs ≡ b ∷ bs
    → (cleanup_backend env xs q).backend ≡ record b { data_set = false } ∷ bs
unfolding cleanup_backend
cleanup_backend-backend env [] q b bs e = cc
cleanup_backend-backend env (x ∷ xs) q b bs e = ground arith

cleanup_query-backend :
    (env : Env) (q : Query) (b : Backend) (bs : List Backend)
    → q.backend ≡ b ∷ bs
    → (cleanup_query env q).backend ≡ record b { data_set = false } ∷ bs
unfolding cleanup_query
cleanup_query-backend env q b bs e =
    cleanup_backend-backend env _ (clear_result_timeout (clear_request_timeout (clear_delayed q))) b
      bs (cleared ∙ e)
  where
    cleared : (clear_result_timeout (clear_request_timeout (clear_delayed q))).backend ≡ q.backend
    cleared =
        clear_result_timeout-backend (clear_request_timeout (clear_delayed q))
        ∙ clear_request_timeout-backend (clear_delayed q)
        ∙ clear_delayed-backend q

enter_done-done_behind :
    (env : Env) (q : Query) (b : Backend) (bs : List Backend)
    → q.backend ≡ b ∷ bs
    → (enter_done env q).notified
      ≡ (notify (restart env (skip_optional bs) (cleanup_query env q))).notified
unfolding enter_done done_behind
enter_done-done_behind env q b bs e = rw (cleanup_query-backend env q b bs e, done_behind) refl

-- Becoming done calls the user's callback behind the restart: if a mandatory backend is left, the
-- calls are those of trying the backends from the next mandatory one on (one, if all of them fail) and
-- then one more, in whatever state that left the query; otherwise there is one, in the state done.
pub set_state-done_reports :
    (env : Env) (q : Query) (b : Backend) (bs : List Backend)
    → same_state State.done q.state ≡ false
    → q.backend ≡ b ∷ bs
    → q.callback ≡ true
    → (next : List Backend) × IsNext bs next
      × ((set_state env State.done q).notified ≡ done_reports env q.request q.notified next)
unfolding set_state enter
set_state-done_reports env q b bs new e h =
    let n = record q { state = State.done } in
    let k = cleanup_query-Steady env n in
    let c = cleanup_query env n in
    (
      skip_optional bs,
      skip_optional-IsNext bs,
      rw new (
          enter_done-done_behind env n b bs e
          ∙ done_behind-notified env (skip_optional bs) c (k.callback ∙ h) k.state
          ∙ ap₂ (λ r l. done_reports env r l (skip_optional bs)) k.request k.notified),
    )
