-- ===== src/Machine/Entering.antt =====
-- lib/query.c: `netresolve_query_set_state`, and what entering each state does.
use netresolve.Prelude.{
  not, ◌&&◌, Option, none, some, List, [], ◌∷◌, ◌==◌, if◌then◌else◌, is_nonzero, is_positive,
}
use netresolve.Types.{State, Request}
use netresolve.Types.Ipproto
use netresolve.Query.{Call, Backend, WatchCallback, Query, Env, past_end, null_backend, fault}
use netresolve.Watch.{timeout_add}
use netresolve.Machine.{
  same_state, cleanup_query, notify, enter_none, enter_waiting, enter_resolved, do_calls,
}

-- the default protocol of NETRESOLVE_STATE_SETUP
unfoldable pub default_protocol : Query → Query
default_protocol q =
    if q.request.dns_srv_lookup && q.request.protocol == 0
    then record q { request = record q.request { protocol = Ipproto.tcp } }
    else q

-- the user's callback, or the next backend of the array, entered by `start`
unfoldable pub next_backend : (Query → Query) → List Backend → Query → Query
unfolding notify
next_backend start [] q = notify (record q { backend = [] })
next_backend start (b ∷ bs) q = start (record q { backend = b ∷ bs; state = State.setup })

-- entering NETRESOLVE_STATE_FAILED with the backends behind the current one
unfoldable pub enter_failed : Env → (Query → Query) → List Backend → Query → Query
unfolding cleanup_query next_backend
enter_failed env start rest q =
    next_backend start rest (cleanup_query env (record q { state = State.failed }))

-- what NETRESOLVE_STATE_SETUP does behind the call of `setup`: `fail` is the change to
-- NETRESOLVE_STATE_FAILED. The code's second test, for NETRESOLVE_STATE_ERROR, is for what the backend
-- itself has reported.
unfoldable pub after_setup : Env → (Query → Query) → State → Query → Query
unfolding enter_waiting
after_setup env fail State.setup q =
    if is_nonzero q.request.request_timeout
    then enter_waiting env (record q { state = State.waiting })
    else fail q
after_setup env fail State.error q = fail q
after_setup env fail _ q = q

unfoldable pub run_setup : Env → (Query → Query) → Option (Request → List Call) → Query → Query
unfolding after_setup do_calls
run_setup env fail none q = fail q
run_setup env fail (some setup) q =
    let q' = do_calls (λ q. q) env (setup q.request) q in after_setup env fail q'.state q'

-- Entering NETRESOLVE_STATE_SETUP, with the array of backends from the current one on. While `setup`
-- runs the state is never NETRESOLVE_STATE_WAITING, so adding a path does not change it.
unfoldable pub enter_setup : Env → List Backend → Query → Query
unfolding default_protocol run_setup enter_failed
enter_setup env [] q = fault null_backend q
enter_setup env (b ∷ bs) q =
    let q' = default_protocol q in
    run_setup env (enter_failed env (enter_setup env bs) bs) (env.setup b q'.request.type) q'

-- the backends from the next mandatory one on
unfoldable pub skip_optional : List Backend → List Backend
skip_optional [] = []
skip_optional (b ∷ bs) = let rest = skip_optional bs in if b.mandatory then b ∷ bs else rest

unfoldable pub restart : Env → List Backend → Query → Query
unfolding enter_setup
restart env [] q = record q { backend = [] }
restart env (b ∷ bs) q =
    enter_setup env (b ∷ bs) (record q { backend = b ∷ bs; state = State.setup })

-- entering NETRESOLVE_STATE_DONE: the callback is called behind a restart too
unfoldable pub done_behind : Env → List Backend → Query → Query
done_behind env [] q = fault past_end q
done_behind env (b ∷ bs) q = notify (restart env (skip_optional bs) q)

unfoldable pub enter_done : Env → Query → Query
enter_done env q = let q' = cleanup_query env q in done_behind env q'.backend q'

-- entering NETRESOLVE_STATE_FAILED, from outside of a setup
unfoldable pub failed_behind : Env → List Backend → Query → Query
unfolding next_backend enter_setup
failed_behind env [] q = fault past_end q
failed_behind env (b ∷ bs) q = next_backend (enter_setup env bs) bs q

unfoldable pub fail_query : Env → Query → Query
unfolding failed_behind cleanup_query
fail_query env q =
    let q' = cleanup_query env (record q { state = State.failed }) in
    failed_behind env q'.backend q'

-- entering NETRESOLVE_STATE_WAITING_MORE
unfoldable pub enter_waiting_more : Env → Query → Query
unfolding timeout_add enter_done
enter_waiting_more env q =
    if not (is_nonzero q.request.result_timeout)
    then enter_done env (record q { state = State.done })
    else if is_positive q.request.result_timeout
    then (let (timeout, q') = timeout_add env WatchCallback.result_timeout q in
        record q' { result_timeout = timeout })
    else q

-- the `switch` of `netresolve_query_set_state`
unfoldable pub enter : Env → State → State → Query → Query
enter env old_state State.none q = enter_none q
enter env old_state State.setup q = enter_setup env q.backend q
enter env old_state State.waiting q = enter_waiting env q
enter env old_state State.waiting_more q = enter_waiting_more env q
enter env old_state State.resolved q = enter_resolved env old_state q
enter env old_state State.done q = enter_done env q
enter env old_state State.error q = q
enter env old_state State.failed q = fail_query env q

-- `netresolve_query_set_state`
unfoldable pub set_state : Env → State → Query → Query
unfolding enter
set_state env state q =
    if same_state state q.state then q else enter env q.state state (record q { state = state })

-- a call of the backend interface outside of a setup
unfoldable pub run_calls : Env → List Call → Query → Query
unfolding do_calls set_state
run_calls env cs q = do_calls (set_state env State.waiting_more) env cs q
