-- ===== src/Machine/Laws.antt =====
-- What the state machine of lib/query.c preserves, from what its primitives preserve: a relation that
-- satisfies a few laws relates a query to what any step makes of it.
pub mod Steps
pub mod Lives
use netresolve.Prelude.{
  ℕ, ◌≡◌, refl, Bool, true, false, Option, none, some, List, [], ◌∷◌, CString, arith, Bool-cases,
  Option-cases, inl, inr, is_some, if◌then◌else◌,
}
use netresolve.Types.{State, Request, AddrPath}
use netresolve.Query.{Call, Backend, WatchCallback, Watch, Query, Env, check, fault}
use netresolve.Watch.{watch_add, watch_remove, timeout_add, timeout_remove, remove_all}
use netresolve.Output.{
  PathArgs, backend_add_path, set_canonical_name, add_name_info, set_secure, set_dns_answer,
}
use netresolve.Machine.{
  do_call, do_calls, finished, failed, enter_resolved, new_priv, new_priv_in, plugin_timeout,
  enter_none, remove_timeout, clear_delayed, clear_request_timeout, clear_result_timeout,
  cleanup_backend, cleanup_query, is_setup, same_state,
}

-- The watches, the paths and the family asked for are the same.
pub record Same (q q' : Query) : Type 0 where
  pub family : q'.request.family ≡ q.request.family
  pub paths : q'.response.paths ≡ q.response.paths
  pub watches : q'.watches ≡ q.watches
  pub nfds : q'.nfds ≡ q.nfds
  pub next_watch : q'.next_watch ≡ q.next_watch

-- The laws: they say what a path that is added, a watch that is added or removed, and the release of
-- the response do.
pub record Laws (env : Env) (R : Query → Query → Type 0) : Type 0 where
  pub trans : (p q r : Query) → R p q → R q r → R p r
  pub same : (q q' : Query) → Same q q' → R q q'
  pub path :
      (more : Query → Query)
      → ((q : Query) → R q (more q))
      → (a : PathArgs) (q : Query) → R q (backend_add_path more env a q)
  pub added : (fd : ℕ) (c : WatchCallback) (q : Query) → R q (watch_add fd c q)
  pub removed : (id : ℕ) (q : Query) → R q (watch_remove id q)
  pub emptied : (q : Query) → R q (enter_none q)

module _ (env : Env) (R : Query → Query → Type 0) (law : Laws env R) where
  pub timeout_add-keeps : (c : WatchCallback) (q : Query) → R q (timeout_add env c q).1
  unfolding timeout_add
  timeout_add-keeps c q = elim (Option-cases (env.timerfd q.next_watch)) [
    | inl e ↦ rw (e, timeout_add) (law.same q q (ground arith))
    | inr (fd, e) ↦ rw (e, timeout_add) (law.added fd c q)
  ]

  remove_timeout-keeps : (t : Option ℕ) (q : Query) → R q (remove_timeout t q)
  unfolding timeout_remove
  remove_timeout-keeps none q = law.same q q (ground arith)
  remove_timeout-keeps (some id) q = law.removed id q

  pub clear_delayed-keeps : (q : Query) → R q (clear_delayed q)
  unfolding clear_delayed timeout_remove
  clear_delayed-keeps q =
      law.trans q (remove_timeout q.delayed q) _ (remove_timeout-keeps q.delayed q)
        (law.same (remove_timeout q.delayed q) _ (ground arith))

  pub clear_request_timeout-keeps : (q : Query) → R q (clear_request_timeout q)
  unfolding clear_request_timeout timeout_remove
  clear_request_timeout-keeps q =
      law.trans q (remove_timeout q.request_timeout q) _ (remove_timeout-keeps q.request_timeout q)
        (law.same (remove_timeout q.request_timeout q) _ (ground arith))

  pub clear_result_timeout-keeps : (q : Query) → R q (clear_result_timeout q)
  unfolding clear_result_timeout timeout_remove
  clear_result_timeout-keeps q =
      law.trans q (remove_timeout q.result_timeout q) _ (remove_timeout-keeps q.result_timeout q)
        (law.same (remove_timeout q.result_timeout q) _ (ground arith))

  remove_all-keeps : (ids : List ℕ) (q : Query) → R q (remove_all ids q)
  unfolding remove_all
  remove_all-keeps [] q = law.same q q (ground arith)
  remove_all-keeps (id ∷ ids) q =
      law.trans q (watch_remove id q) _ (law.removed id q)
        (remove_all-keeps ids (watch_remove id q))

  with_backend : (bs : List Backend) (q : Query) → R q (record q { backend = bs })
  with_backend bs q = law.same q _ (ground arith)

  remove_if-keeps : (c : Bool) (ids : List ℕ) (q : Query) → R q (if c then remove_all ids q else q)
  remove_if-keeps true ids q = remove_all-keeps ids q
  remove_if-keeps false ids q = law.same q q (ground arith)

  cleanup_backend-keeps : (bs : List Backend) (q : Query) → R q (cleanup_backend env bs q)
  unfolding cleanup_backend
  cleanup_backend-keeps [] q = law.same q q (ground arith)
  cleanup_backend-keeps (b ∷ bs) q =
      let ids = env.cleanup b q.watches in
      let q' = if b.cleanup then remove_all ids q else q in
      law.trans q q' _ (remove_if-keeps b.cleanup ids q)
        (with_backend (record b { data_set = false } ∷ bs) q')

  pub cleanup_query-keeps : (q : Query) → R q (cleanup_query env q)
  unfolding cleanup_query
  cleanup_query-keeps q =
      let q₁ = clear_delayed q in
      let q₂ = clear_request_timeout q₁ in
      let q₃ = clear_result_timeout q₂ in
      law.trans q q₁ _ (clear_delayed-keeps q) (
        law.trans q₁ q₂ _ (clear_request_timeout-keeps q₁)
          (law.trans q₂ q₃ _ (clear_result_timeout-keeps q₂) (cleanup_backend-keeps q₃.backend q₃)))

  new_priv_in-keeps : (bs : List Backend) (c : Bool) (q : Query) → R q (new_priv_in bs c q)
  unfolding new_priv_in
  new_priv_in-keeps [] c q = law.same q _ (ground arith)
  new_priv_in-keeps (b ∷ bs) c q = law.same q _ (ground arith)

  add_name_info-keeps : (n s : Option CString) (q : Query) → R q (add_name_info env n s q)
  unfolding add_name_info
  add_name_info-keeps n s q = law.same q _ (ground arith)

  pub enter_resolved-keeps : (s : State) (q : Query) → R q (enter_resolved env s q)
  unfolding enter_resolved
  enter_resolved-keeps s q = elim (Bool-cases (is_setup s)) [
    | inl e ↦
        let q' = (timeout_add env WatchCallback.delayed q).1 in
        rw e (
          law.trans q q' _ (timeout_add-keeps WatchCallback.delayed q)
            (law.same q' _ (ground arith)))
    | inr e ↦ rw e (law.same q q (ground arith))
  ]

  pub in_state : (s : State) (q : Query) → R q (record q { state = s })
  in_state s q = law.same q _ (ground arith)

  finished-keeps : (q : Query) → R q (finished env q)
  unfolding finished
  finished-keeps q = elim (Bool-cases (same_state State.resolved q.state)) [
    | inl e ↦ rw e (law.same q q (ground arith))
    | inr e ↦
        let q' = record q { state = State.resolved } in
        rw e (law.trans q q' _ (in_state State.resolved q) (enter_resolved-keeps q.state q'))
  ]

  module _ (more : Query → Query) (go : (q : Query) → R q (more q)) where
    do_call-keeps : (c : Call) (q : Query) → R q (do_call more env c q)
    unfolding do_call set_canonical_name set_secure set_dns_answer new_priv failed plugin_timeout
    do_call-keeps (Call.add_path f a i st pr po p w t) q = law.path more go _ q
    do_call-keeps (Call.set_canonical_name n) q = law.same q _ (ground arith)
    do_call-keeps (Call.add_name_info n s) q = add_name_info-keeps n s q
    do_call-keeps Call.set_secure q = law.same q _ (ground arith)
    do_call-keeps (Call.set_dns_answer a) q = law.same q _ (ground arith)
    do_call-keeps (Call.new_priv c) q = new_priv_in-keeps q.backend c q
    do_call-keeps (Call.watch_add fd n) q = law.added fd (WatchCallback.plugin n) q
    do_call-keeps (Call.watch_remove id) q = law.removed id q
    do_call-keeps (Call.timeout_add n) q = timeout_add-keeps (WatchCallback.plugin n) q
    do_call-keeps Call.finished q = finished-keeps q
    do_call-keeps Call.failed q = in_state State.error q

    pub do_calls-keeps : (cs : List Call) (q : Query) → R q (do_calls more env cs q)
    unfolding do_calls
    do_calls-keeps [] q = law.same q q (ground arith)
    do_calls-keeps (c ∷ cs) q =
        law.trans q (do_call more env c q) _ (do_call-keeps c q)
          (do_calls-keeps cs (do_call more env c q))
