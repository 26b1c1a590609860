-- ===== src/Machine.antt =====
-- lib/query.c: the timeouts of a query, the release of its backend, and what the calls of a backend do.
-- The user's callback is taken to leave the query alone. What follows a fault is not meaningful; the
-- theorems say when there is none.
pub mod Steady
pub mod Entering
pub mod Dispatch
mod Examples
pub mod Failover
mod Freeing
pub mod Laws
pub mod Answers
use netresolve.Prelude.{
  ℕ, ℤ, zero, suc, pos, ◌+◌, Bool, true, false, not, ◌&&◌, ◌||◌, Option, none, some, List, [], ◌∷◌,
  ◌++◌, CString, ltb, ◌==◌, if◌then◌else◌, is_some, is_nonzero, is_positive,
}
use netresolve.Types.{State, RequestType, Request, Response, zero_response}
use netresolve.Types.Ipproto
use netresolve.Query.{
  Call, Backend, WatchCallback, Watch, Query, Env, Owned, assertion, past_end, null_backend,
  dangling_watch, fault, check,
}
use netresolve.Watch.{watch_add, watch_remove, timeout_add, timeout_remove, remove_all, find_watch}
use netresolve.Output.{
  PathArgs, backend_add_path, set_canonical_name, add_name_info, set_secure, set_dns_answer,
}

abbrev pub same_state : State → State → Bool
same_state State.none State.none = true
same_state State.setup State.setup = true
same_state State.waiting State.waiting = true
same_state State.waiting_more State.waiting_more = true
same_state State.resolved State.resolved = true
same_state State.done State.done = true
same_state State.error State.error = true
same_state State.failed State.failed = true
same_state _ _ = false

abbrev remove_timeout : Option ℕ → Query → Query
remove_timeout none q = q
remove_timeout (some id) q = timeout_remove id q

-- `clear_timeout`, on each of the three timeouts
pub clear_delayed : Query → Query
unfolding timeout_remove
clear_delayed q = record (remove_timeout q.delayed q) { delayed = none }

pub clear_request_timeout : Query → Query
unfolding timeout_remove
clear_request_timeout q = record (remove_timeout q.request_timeout q) { request_timeout = none }

pub clear_result_timeout : Query → Query
unfolding timeout_remove
clear_result_timeout q = record (remove_timeout q.result_timeout q) { result_timeout = none }

-- the part of `cleanup_query` on the current backend
cleanup_backend : Env → List Backend → Query → Query
unfolding remove_all
cleanup_backend env [] q = q
cleanup_backend env (b ∷ bs) q =
    let cleaned = if b.cleanup then remove_all (env.cleanup b q.watches) q else q in
    record cleaned { backend = record b { data_set = false } ∷ bs }

-- `cleanup_query`
pub cleanup_query : Env → Query → Query
unfolding cleanup_backend clear_delayed clear_request_timeout clear_result_timeout
cleanup_query env q =
    let cleared = clear_result_timeout (clear_request_timeout (clear_delayed q)) in
    cleanup_backend env cleared.backend cleared

-- the call of the user's callback, if there is one
pub notify : Query → Query
notify q = if q.callback then record q { notified = q.notified ++ q.state ∷ [] } else q

abbrev free_if : Bool → Owned → Query → Query
free_if true block q = record q { freed = q.freed ++ block ∷ [] }
free_if false block q = q

abbrev has_paths : Response → Bool
has_paths r = elim r.paths [ [] ↦ false | p ∷ ps ↦ true ]

-- entering NETRESOLVE_STATE_NONE; the pointer `request.dns_name` stays as it is
pub enter_none : Query → Query
enter_none q =
    let q₁ = free_if (is_some q.request.dns_name) Owned.request_dns_name q in
    let q₂ = free_if (has_paths q.response) Owned.paths q₁ in
    let q₃ = free_if (is_some q.response.nodename) Owned.nodename q₂ in
    let q₄ = free_if (is_some q.response.servname) Owned.servname q₃ in
    let q₅ = free_if (ltb 0 q.lists) Owned.services q₄ in record q₅ { response = zero_response }

-- entering NETRESOLVE_STATE_WAITING
pub enter_waiting : Env → Query → Query
unfolding timeout_add
enter_waiting env q =
    if is_positive q.request.request_timeout
    then (let (timeout, q') = timeout_add env WatchCallback.request_timeout q in
        record q' { request_timeout = timeout })
    else q

abbrev is_setup : State → Bool
is_setup State.setup = true
is_setup _ = false

-- entering NETRESOLVE_STATE_RESOLVED from `old_state`; `eventfd` is taken to succeed
pub enter_resolved : Env → State → Query → Query
unfolding timeout_add
enter_resolved env old_state q =
    if is_setup old_state
    then (let (timeout, q') = timeout_add env WatchCallback.delayed q in
        record q' { delayed = timeout; eventfds = q.eventfds + 1 })
    else q

-- `netresolve_backend_finished` and `netresolve_backend_failed`
pub finished : Env → Query → Query
unfolding enter_resolved
finished env q =
    if same_state State.resolved q.state
    then q
    else enter_resolved env q.state (record q { state = State.resolved })

pub failed : Query → Query
failed q = record q { state = State.error }

-- `netresolve_backend_new_priv`; `calloc` is taken to succeed
new_priv_in : List Backend → Bool → Query → Query
new_priv_in [] cleanup q = fault null_backend q
new_priv_in (b ∷ bs) cleanup q =
    let checked = check (not b.data_set) assertion q in
    record checked { backend = record b { cleanup = cleanup; data_set = true } ∷ bs }

new_priv : Bool → Query → Query
unfolding new_priv_in
new_priv cleanup q = new_priv_in q.backend cleanup q

-- a timeout of a plugin; the plugin keeps the pointer
plugin_timeout : Env → ℕ → Query → Query
unfolding timeout_add
plugin_timeout env n q = (timeout_add env (WatchCallback.plugin n) q).1

pub do_call : (Query → Query) → Env → Call → Query → Query
unfolding plugin_timeout new_priv
do_call more env (Call.add_path family address ifindex socktype protocol port priority weight ttl)
      q =
    backend_add_path more env
      (record {
        family = family;
        address = address;
        ifindex = ifindex;
        socktype = socktype;
        protocol = protocol;
        port = port;
        priority = priority;
        weight = weight;
        ttl = ttl;
      })
      q
do_call more env (Call.set_canonical_name name) q = set_canonical_name name q
do_call more env (Call.add_name_info nodename servname) q = add_name_info env nodename servname q
do_call more env Call.set_secure q = set_secure q
do_call more env (Call.set_dns_answer answer) q = set_dns_answer answer q
do_call more env (Call.new_priv cleanup) q = new_priv cleanup q
do_call more env (Call.watch_add fd n) q = watch_add fd (WatchCallback.plugin n) q
do_call more env (Call.watch_remove id) q = watch_remove id q
do_call more env (Call.timeout_add n) q = plugin_timeout env n q
do_call more env Call.finished q = finished env q
do_call more env Call.failed q = failed q

pub do_calls : (Query → Query) → Env → List Call → Query → Query
unfolding do_call
do_calls more env [] q = q
do_calls more env (c ∷ cs) q = do_calls more env cs (do_call more env c q)
