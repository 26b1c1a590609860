-- ===== src/Machine/Dispatch.antt =====
-- lib/query.c: the dispatch of a watch, and the release of a query.
use netresolve.Prelude.{
  ℕ, Bool, true, false, none, some, List, [], ◌∷◌, ◌==◌, if◌then◌else◌, is_some,
}
use netresolve.Types.{State, Request}
use netresolve.Query.{
  WatchCallback, Watch, Query, Env, Owned, assertion, dangling_watch, fault, check,
}
use netresolve.Watch.{find_watch}
use netresolve.Machine.{
  same_state, clear_delayed, clear_request_timeout, clear_result_timeout, cleanup_query, free_if,
}
use netresolve.Machine.Entering.{set_state, run_calls}

abbrev is_waiting_state : State → Bool
is_waiting_state State.waiting = true
is_waiting_state State.waiting_more = true
is_waiting_state _ = false

-- `dispatch_request_timeout`, `dispatch_result_timeout` and `dispatch_delayed`, with `dispatch_timeout`
unfoldable pub dispatch_request_timeout : Env → Query → Query
unfolding set_state clear_request_timeout
dispatch_request_timeout env q =
    let q₁ = check (is_waiting_state q.state) assertion q in
    let q₂ = check (is_some q.request_timeout) assertion q₁ in
    set_state env State.failed (clear_request_timeout q₂)

unfoldable pub dispatch_result_timeout : Env → Query → Query
unfolding set_state clear_result_timeout
dispatch_result_timeout env q =
    let q₁ = check (same_state State.waiting_more q.state) assertion q in
    let q₂ = check (is_some q.result_timeout) assertion q₁ in
    set_state env State.done (clear_result_timeout q₂)

unfoldable pub dispatch_delayed : Env → Query → Query
unfolding set_state clear_delayed
dispatch_delayed env q =
    let q₁ = check (same_state State.resolved q.state) assertion q in
    let q₂ = check (is_some q.delayed) assertion q₁ in set_state env State.done (clear_delayed q₂)

-- the call of a watch's callback
unfoldable pub watch_event : Env → WatchCallback → Query → Query
unfolding run_calls dispatch_request_timeout dispatch_result_timeout dispatch_delayed
watch_event env (WatchCallback.plugin n) q = run_calls env (env.on_event n q.request) q
watch_event env WatchCallback.request_timeout q = dispatch_request_timeout env q
watch_event env WatchCallback.result_timeout q = dispatch_result_timeout env q
watch_event env WatchCallback.delayed q = dispatch_delayed env q

-- the end of `netresolve_query_dispatch`
unfoldable pub check_changes : Env → Query → Query
unfolding set_state
check_changes env q =
    let q₁ = if same_state State.resolved q.state then set_state env State.done q else q in
    if same_state State.error q₁.state then set_state env State.failed q₁ else q₁

-- `netresolve_query_dispatch`, on the watch of that number
unfoldable pub dispatch : Env → ℕ → Query → Query
unfolding watch_event check_changes
dispatch env id q = elim (find_watch id q.watches) [
  | none ↦ fault dangling_watch q
  | some w ↦ check_changes env (watch_event env w.callback q)
]

abbrev no_watches : List Watch → Bool
no_watches [] = true
no_watches (w ∷ ws) = false

-- the end of `netresolve_query_free`, on the request that it had
unfoldable pub free_request : Request → Query → Query
free_request r q =
    let q₁ = free_if (is_some r.nodename) Owned.request_nodename q in
    let q₂ = free_if (is_some r.servname) Owned.request_servname q₁ in
    free_if (is_some r.dns_name) Owned.request_dns_name q₂

-- the assertions of `netresolve_query_free`
unfoldable pub check_released : Query → Query
check_released q = check (no_watches q.watches) assertion (check (q.nfds == 0) assertion q)

-- `netresolve_query_free`
unfoldable pub free_query : Env → Query → Query
free_query env q =
    let q' = set_state env State.none (cleanup_query env q) in
    free_request q'.request (check_released q')
