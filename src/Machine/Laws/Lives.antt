-- ===== src/Machine/Laws/Lives.antt =====
-- Sequences of dispatched watches (lib/query.c) under the laws.
use netresolve.Prelude.{
  ℕ, Bool, true, false, List, [], ◌∷◌, Bool-cases, Option-cases, inl, inr, arith, if◌then◌else◌,
}
use netresolve.Types.{State}
use netresolve.Query.{WatchCallback, Query, Env, Fault, assertion, check}
use netresolve.Watch.{find_watch}
use netresolve.Machine.{clear_delayed, clear_request_timeout, clear_result_timeout, same_state}
use netresolve.Machine.Entering.{set_state, run_calls}
use netresolve.Machine.Dispatch.{
  dispatch_request_timeout, dispatch_result_timeout, dispatch_delayed, watch_event, check_changes,
  dispatch,
}
use netresolve.Machine.Laws.{
  Laws, clear_delayed-keeps, clear_request_timeout-keeps, clear_result_timeout-keeps,
  do_calls-keeps,
}
use netresolve.Machine.Laws.Steps.{Goes, set_state-keeps}

-- The query after the watches of some numbers have been dispatched, in order.
abbrev pub dispatch_all : Env → List ℕ → Query → Query
dispatch_all env [] q = q
dispatch_all env (id ∷ ids) q = dispatch_all env ids (dispatch env id q)

module _ (env : Env) (R : Query → Query → Type 0) (law : Laws env R) where
  check-keeps : (ok : Bool) (f : Fault) (q : Query) → R q (check ok f q)
  check-keeps true f q = law.same q q (ground arith)
  check-keeps false f q = law.same q _ (ground arith)

  -- Two assertions, and then a timeout is cleared and the state changes.
  timed :
      (a b : Bool) (clear : Query → Query) (s : State) (q : Query)
      → Goes env R law clear
      → R q (set_state env s (clear (check b assertion (check a assertion q))))
  timed a b clear s q go =
      let q₁ = check a assertion q in
      let q₂ = check b assertion q₁ in
      law.trans q q₁ _ (check-keeps a assertion q) (
        law.trans q₁ q₂ _ (check-keeps b assertion q₁)
          (law.trans q₂ (clear q₂) _ (go q₂) (set_state-keeps env R law s (clear q₂))))

  watch_event-keeps : (c : WatchCallback) → Goes env R law (watch_event env c)
  unfolding watch_event run_calls dispatch_request_timeout dispatch_result_timeout dispatch_delayed
  watch_event-keeps (WatchCallback.plugin n) q =
      do_calls-keeps env R law (set_state env State.waiting_more)
        (set_state-keeps env R law State.waiting_more) (env.on_event n q.request) q
  watch_event-keeps WatchCallback.request_timeout q =
      timed _ _ clear_request_timeout State.failed q (clear_request_timeout-keeps env R law)
  watch_event-keeps WatchCallback.result_timeout q =
      timed _ _ clear_result_timeout State.done q (clear_result_timeout-keeps env R law)
  watch_event-keeps WatchCallback.delayed q =
      timed _ _ clear_delayed State.done q (clear_delayed-keeps env R law)

  change-keeps :
      (old s : State) (q : Query) → R q (if same_state old q.state then set_state env s q else q)
  change-keeps old s q = elim (Bool-cases (same_state old q.state)) [
    | inl e ↦ rw e (set_state-keeps env R law s q)
    | inr e ↦ rw e (law.same q q (ground arith))
  ]

  check_changes-keeps : Goes env R law (check_changes env)
  unfolding check_changes
  check_changes-keeps q =
      let q₁ = if same_state State.resolved q.state then set_state env State.done q else q in
      law.trans q q₁ _ (change-keeps State.resolved State.done q)
        (change-keeps State.error State.failed q₁)

  dispatch-keeps : (id : ℕ) → Goes env R law (dispatch env id)
  unfolding dispatch
  dispatch-keeps id q = elim (Option-cases (find_watch id q.watches)) [
    | inl e ↦ rw (e, dispatch) (law.same q _ (ground arith))
    | inr (w, e) ↦
        rw (e, dispatch)
          (law.trans q (watch_event env w.callback q) _ (watch_event-keeps w.callback q)
            (check_changes-keeps (watch_event env w.callback q)))
  ]

  pub dispatch_all-keeps : (ids : List ℕ) (q : Query) → R q (dispatch_all env ids q)
  dispatch_all-keeps [] q = law.same q q (ground arith)
  dispatch_all-keeps (id ∷ ids) q =
      law.trans q (dispatch env id q) _ (dispatch-keeps id q)
        (dispatch_all-keeps ids (dispatch env id q))
