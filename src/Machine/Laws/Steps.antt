-- ===== src/Machine/Laws/Steps.antt =====
-- The steps of the state machine of lib/query.c under the laws.
use netresolve.Prelude.{
  inl, inr, Option, none, some, List, [], ◌∷◌, arith, Bool-cases, is_nonzero, is_positive,
  if◌then◌else◌,
}
use netresolve.Types.{State, Request}
use netresolve.Query.{WatchCallback, Call, Backend, Query, Env}
use netresolve.Watch.{timeout_add}
use netresolve.Machine.{do_calls, cleanup_query, notify, enter_waiting, same_state}
use netresolve.Machine.Entering.{
  default_protocol, next_backend, enter_failed, after_setup, run_setup, enter_setup, restart,
  skip_optional, done_behind, enter_done, failed_behind, fail_query, enter_waiting_more, enter,
  set_state,
}
use netresolve.Machine.Laws.{
  Laws, timeout_add-keeps, cleanup_query-keeps, enter_resolved-keeps, in_state, do_calls-keeps,
}

module _ (env : Env) (R : Query → Query → Type 0) (law : Laws env R) where
  -- A function of a query that the relation follows.
  abbrev pub Goes : (Query → Query) → Type 0
  Goes f = (q : Query) → R q (f q)

  notify-keeps : Goes notify
  unfolding notify
  notify-keeps q = law.same q _ (ground arith)

  enter_waiting-keeps : Goes (enter_waiting env)
  unfolding enter_waiting
  enter_waiting-keeps q = elim (Bool-cases (is_positive q.request.request_timeout)) [
    | inl e ↦
        let q' = (timeout_add env WatchCallback.request_timeout q).1 in
        rw e (
          law.trans q q' _ (timeout_add-keeps env R law WatchCallback.request_timeout q)
            (law.same q' _ (ground arith)))
    | inr e ↦ rw e (law.same q q (ground arith))
  ]

  default_protocol-keeps : Goes default_protocol
  unfolding default_protocol
  default_protocol-keeps q = law.same q _ (ground arith)

  moved : (s : State) (bs : List Backend) (q : Query) → R q (record q { backend = bs; state = s })
  moved s bs q = law.same q _ (ground arith)

  next_backend-keeps :
      (start : Query → Query) (bs : List Backend) → Goes start → Goes (next_backend start bs)
  unfolding next_backend
  next_backend-keeps start [] go q =
      law.trans q (record q { backend = [] }) _ (law.same q _ (ground arith))
        (notify-keeps (record q { backend = [] }))
  next_backend-keeps start (b ∷ bs) go q =
      law.trans q (record q { backend = b ∷ bs; state = State.setup }) _
        (moved State.setup (b ∷ bs) q) (go (record q { backend = b ∷ bs; state = State.setup }))

  cleaned : (s : State) (q : Query) → R q (cleanup_query env (record q { state = s }))
  cleaned s q =
      law.trans q (record q { state = s }) _ (law.same q _ (ground arith))
        (cleanup_query-keeps env R law (record q { state = s }))

  enter_failed-keeps :
      (start : Query → Query) (bs : List Backend) → Goes start → Goes (enter_failed env start bs)
  unfolding enter_failed
  enter_failed-keeps start bs go q =
      law.trans q (cleanup_query env (record q { state = State.failed })) _ (cleaned State.failed q)
        (next_backend-keeps start bs go (cleanup_query env (record q { state = State.failed })))

  after_setup-keeps : (fail : Query → Query) (s : State) → Goes fail → Goes (after_setup env fail s)
  unfolding after_setup
  after_setup-keeps fail State.setup go q =
      elim (Bool-cases (is_nonzero q.request.request_timeout)) [
        | inl e ↦ rw e (
            law.trans q (record q { state = State.waiting }) _ (law.same q _ (ground arith))
              (enter_waiting-keeps (record q { state = State.waiting })))
        | inr e ↦ rw e (go q)
      ]
  after_setup-keeps fail State.error go q = go q
  after_setup-keeps fail State.none go q = law.same q q (ground arith)
  after_setup-keeps fail State.waiting go q = law.same q q (ground arith)
  after_setup-keeps fail State.waiting_more go q = law.same q q (ground arith)
  after_setup-keeps fail State.resolved go q = law.same q q (ground arith)
  after_setup-keeps fail State.done go q = law.same q q (ground arith)
  after_setup-keeps fail State.failed go q = law.same q q (ground arith)

  run_setup-keeps :
      (fail : Query → Query) (setup : Option (Request → List Call))
      → Goes fail
      → Goes (run_setup env fail setup)
  unfolding run_setup
  run_setup-keeps fail none go q = go q
  run_setup-keeps fail (some setup) go q =
      let q' = do_calls (λ q. q) env (setup q.request) q in
      law.trans q q' _
        (do_calls-keeps env R law (λ q. q) (λ q. law.same q q (ground arith)) (setup q.request) q)
        (after_setup-keeps fail q'.state go q')

  enter_setup-keeps : (bs : List Backend) → Goes (enter_setup env bs)
  unfolding enter_setup
  enter_setup-keeps [] q = law.same q _ (ground arith)
  enter_setup-keeps (b ∷ bs) q =
      let q' = default_protocol q in
      law.trans q q' _ (default_protocol-keeps q) (
        run_setup-keeps (enter_failed env (enter_setup env bs) bs) (env.setup b q'.request.type)
          (enter_failed-keeps (enter_setup env bs) bs (enter_setup-keeps bs)) q')

  restart-keeps : (bs : List Backend) → Goes (restart env bs)
  unfolding restart
  restart-keeps [] q = law.same q _ (ground arith)
  restart-keeps (b ∷ bs) q =
      law.trans q (record q { backend = b ∷ bs; state = State.setup }) _
        (moved State.setup (b ∷ bs) q)
        (enter_setup-keeps (b ∷ bs) (record q { backend = b ∷ bs; state = State.setup }))

  done_behind-keeps : (bs : List Backend) → Goes (done_behind env bs)
  unfolding done_behind
  done_behind-keeps [] q = law.same q _ (ground arith)
  done_behind-keeps (b ∷ bs) q =
      law.trans q (restart env (skip_optional bs) q) _ (restart-keeps (skip_optional bs) q)
        (notify-keeps (restart env (skip_optional bs) q))

  enter_done-keeps : Goes (enter_done env)
  unfolding enter_done
  enter_done-keeps q =
      let q' = cleanup_query env q in
      law.trans q q' _ (cleanup_query-keeps env R law q) (done_behind-keeps q'.backend q')

  failed_behind-keeps : (bs : List Backend) → Goes (failed_behind env bs)
  unfolding failed_behind
  failed_behind-keeps [] q = law.same q _ (ground arith)
  failed_behind-keeps (b ∷ bs) q =
      next_backend-keeps (enter_setup env bs) bs (enter_setup-keeps bs) q

  fail_query-keeps : Goes (fail_query env)
  unfolding fail_query
  fail_query-keeps q =
      let q' = cleanup_query env (record q { state = State.failed }) in
      law.trans q q' _ (cleaned State.failed q) (failed_behind-keeps q'.backend q')

  waiting_more_timed : Goes (λ q.
      if is_positive q.request.result_timeout
      then record (timeout_add env WatchCallback.result_timeout q).1 {
        result_timeout = (timeout_add env WatchCallback.result_timeout q).0;
      }
      else q)
  waiting_more_timed q = elim (Bool-cases (is_positive q.request.result_timeout)) [
    | inl e ↦
        let q' = (timeout_add env WatchCallback.result_timeout q).1 in
        rw e (
          law.trans q q' _ (timeout_add-keeps env R law WatchCallback.result_timeout q)
            (law.same q' _ (ground arith)))
    | inr e ↦ rw e (law.same q q (ground arith))
  ]

  enter_waiting_more-keeps : Goes (enter_waiting_more env)
  unfolding enter_waiting_more
  enter_waiting_more-keeps q = elim (Bool-cases (is_nonzero q.request.result_timeout)) [
    | inl e ↦ rw (e, enter_waiting_more) (waiting_more_timed q)
    | inr e ↦
        rw (e, enter_waiting_more)
          (law.trans q (record q { state = State.done }) _ (in_state env R law State.done q)
            (enter_done-keeps (record q { state = State.done })))
  ]

  enter-keeps : (old s : State) → Goes (enter env old s)
  unfolding enter
  enter-keeps old State.none q = law.emptied q
  enter-keeps old State.setup q = enter_setup-keeps q.backend q
  enter-keeps old State.waiting q = enter_waiting-keeps q
  enter-keeps old State.waiting_more q = enter_waiting_more-keeps q
  enter-keeps old State.resolved q = enter_resolved-keeps env R law old q
  enter-keeps old State.done q = enter_done-keeps q
  enter-keeps old State.error q = law.same q q (ground arith)
  enter-keeps old State.failed q = fail_query-keeps q

  pub set_state-keeps : (s : State) → Goes (set_state env s)
  unfolding set_state
  set_state-keeps s q = elim (Bool-cases (same_state s q.state)) [
    | inl e ↦ rw e (law.same q q (ground arith))
    | inr e ↦ rw e (
        law.trans q (record q { state = s }) _ (law.same q _ (ground arith))
          (enter-keeps q.state s (record q { state = s })))
  ]
