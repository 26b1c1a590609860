-- ===== src/Machine/Failover.antt =====
-- What the calls of a setup do to the state of a query (lib/query.c, lib/backend.c).
pub mod Search
pub mod Started
pub mod Chain
pub mod Done
use netresolve.Prelude.{
  ℕ, ℤ, zero, suc, pos, ◌≡◌, ◌≢◌, refl, sym, ap, ◌∙◌, ◌⊎◌, inl, inr, Bool, true, false, not, ◌&&◌,
  ◌||◌, Option, none, some, List, [], ◌∷◌, ◌++◌, CString, arith, map, Bool-cases, Option-cases,
  ◌==◌, if◌then◌else◌, is_nonzero, is_some, ltb,
}
use netresolve.Types.{State, RequestType, Request}
use netresolve.Types.Ipproto
use netresolve.Query.{Call, Backend, WatchCallback, Query, Env, check, fault}
use netresolve.Watch.{watch_add, watch_remove, timeout_add, timeout_remove, remove_all, find_watch}
use netresolve.Service.Search.{Found}
use netresolve.Types.{AddrPath}
use netresolve.Output.{
  PathArgs, add_path, add_found, add_service_paths, add_named_paths, backend_add_path,
  set_canonical_name, add_name_info, set_secure, set_dns_answer, is_waiting, is_unwanted,
  found_path, named_found, count_list, new_path, add_paths_for, is_partial, unix_args,
}
use netresolve.Types.Af
use netresolve.Types.Sock
use netresolve.Machine.{
  do_call, do_calls, finished, failed, enter_resolved, new_priv, new_priv_in, plugin_timeout,
  cleanup_query, cleanup_backend, clear_delayed, clear_request_timeout, clear_result_timeout,
  notify, enter_waiting, same_state, is_setup,
}
use netresolve.Machine.Entering.{
  default_protocol, next_backend, enter_failed, after_setup, run_setup, enter_setup, set_state,
  enter,
}
use netresolve.Machine.Steady.{
  names, Kept, Steady, Kept-trans, watch_remove-Steady, stay, backend_add_path-Steady,
}

-- The state in which the calls of a setup leave a query: only the last report counts.
abbrev pub verdict : State → List Call → State
verdict s [] = s
verdict s (Call.finished ∷ cs) = verdict State.resolved cs
verdict s (Call.failed ∷ cs) = verdict State.error cs
verdict s (_ ∷ cs) = verdict s cs

pub verdict-append :
    (s : State) (cs ds : List Call) → verdict s (cs ++ ds) ≡ verdict (verdict s cs) ds
verdict-append s [] ds = refl
verdict-append s (Call.finished ∷ cs) ds = verdict-append State.resolved cs ds
verdict-append s (Call.failed ∷ cs) ds = verdict-append State.error cs ds
verdict-append s (_ ∷ cs) ds = verdict-append s cs ds

Steady-Kept : (q q' : Query) → Steady q q' → Kept q q'
Steady-Kept q q' h = record {
  request = h.request;
  callback = h.callback;
  notified = h.notified;
  backend = h.backend;
}

new_priv_in-Steady :
    (bs : List Backend) (c : Bool) (q : Query)
    → names bs ≡ names q.backend
    → Steady q (new_priv_in bs c q)
unfolding new_priv_in
new_priv_in-Steady [] c q h = ground arith
new_priv_in-Steady (b ∷ bs) c q h = ground arith

add_name_info-Steady :
    (env : Env) (n s : Option CString) (q : Query) → Steady q (add_name_info env n s q)
unfolding add_name_info
add_name_info-Steady env n s q = ground arith

finished-Kept :
    (env : Env) (q : Query) → Kept q (finished env q) × ((finished env q).state ≡ State.resolved)
unfolding finished enter_resolved timeout_add
finished-Kept env q = (ground arith, ground arith)

-- The call at the end decides the state, whatever those before it do.
do_calls-snoc :
    (more : Query → Query) (env : Env) (cs : List Call) (c : Call) (q : Query)
    → do_calls more env (cs ++ c ∷ []) q ≡ do_call more env c (do_calls more env cs q)
unfolding do_calls
do_calls-snoc more env [] c q = refl
do_calls-snoc more env (x ∷ cs) c q = do_calls-snoc more env cs c (do_call more env x q)

pub ends_resolved :
    (more : Query → Query) (env : Env) (cs : List Call) (q : Query)
    → (do_calls more env (cs ++ Call.finished ∷ []) q).state ≡ State.resolved
unfolding do_call
ends_resolved more env cs q =
    ap (λ p. p.state) (do_calls-snoc more env cs Call.finished q)
    ∙ (finished-Kept env (do_calls more env cs q)).1

pub ends_error :
    (more : Query → Query) (env : Env) (q : Query)
    → (do_calls more env (Call.failed ∷ []) q).state ≡ State.error
unfolding do_calls do_call failed
ends_error more env q = refl

plugin_timeout-Steady : (env : Env) (n : ℕ) (q : Query) → Steady q (plugin_timeout env n q)
unfolding plugin_timeout
plugin_timeout-Steady env n q = ground arith

-- Running the calls of a setup keeps what Kept says and ends in the verdict on them.
record Ran (s : State) (cs : List Call) (q q' : Query) : Type 0 where
  kept : Kept q q'
  state : q'.state ≡ verdict s cs

Steady-Ran : (q q' : Query) → Steady q q' → Ran q.state [] q q'
Steady-Ran q q' h = record { kept = Steady-Kept q q' h; state = h.state }

do_call-Ran :
    (env : Env) (c : Call) (cs : List Call) (q : Query)
    → Kept q (do_call stay env c q)
      × (verdict (do_call stay env c q).state cs ≡ verdict q.state (c ∷ cs))
unfolding do_call set_canonical_name set_secure set_dns_answer watch_add new_priv failed
do_call-Ran env (Call.add_path f a i st pr po p w t) cs q =
    let args : PathArgs = record {
      family = f;
      address = a;
      ifindex = i;
      socktype = st;
      protocol = pr;
      port = po;
      priority = p;
      weight = w;
      ttl = t;
    } in
    let h = backend_add_path-Steady env args q in
    (Steady-Kept q _ h, ap (λ s. verdict s cs) h.state)
do_call-Ran env (Call.add_name_info n s) cs q =
    let h = add_name_info-Steady env n s q in (Steady-Kept q _ h, ap (λ s. verdict s cs) h.state)
do_call-Ran env (Call.new_priv c) cs q =
    let h = new_priv_in-Steady q.backend c q refl in
    (Steady-Kept q _ h, ap (λ s. verdict s cs) h.state)
do_call-Ran env (Call.watch_remove id) cs q =
    let h = watch_remove-Steady id q in (Steady-Kept q _ h, ap (λ s. verdict s cs) h.state)
do_call-Ran env (Call.timeout_add n) cs q =
    let h = plugin_timeout-Steady env n q in (Steady-Kept q _ h, ap (λ s. verdict s cs) h.state)
do_call-Ran env Call.finished cs q =
    let h = finished-Kept env q in (h.0, ap (λ s. verdict s cs) h.1)
do_call-Ran env _ cs q = (ground arith, refl)

do_calls-Ran : (env : Env) (cs : List Call) (q : Query) → Ran q.state cs q (do_calls stay env cs q)
unfolding do_calls
do_calls-Ran env [] q = ground arith
do_calls-Ran env (c ∷ cs) q =
    let h = do_call-Ran env c cs q in
    let q' = do_call stay env c q in
    let rest = do_calls-Ran env cs q' in
    record { kept = Kept-trans q q' _ h.0 rest.kept; state = rest.state ∙ h.1 }
