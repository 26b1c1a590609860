-- ===== src/Machine/Steady.antt =====
-- What running a backend of a query leaves alone (lib/query.c, lib/backend.c, lib/event.c).
use netresolve.Prelude.{
  ℕ, ◌≡◌, refl, ◌∙◌, inl, inr, ◌&&◌, Option, none, some, List, [], ◌∷◌, CString, arith, map,
  Bool-cases, ◌==◌,
}
use netresolve.Query.{Backend, Query, Env}
use netresolve.Watch.{watch_remove, remove_all}
use netresolve.Service.Search.{Found}
use netresolve.Types.{AddrPath}
use netresolve.Output.{
  PathArgs, add_path, add_found, add_service_paths, add_named_paths, backend_add_path, is_unwanted,
  found_path, named_found, count_list, new_path, add_paths_for, is_partial, unix_args,
}
use netresolve.Types.Af
use netresolve.Types.Sock
use netresolve.Machine.{
  cleanup_query, cleanup_backend, clear_delayed, clear_request_timeout, clear_result_timeout,
}

-- The settings, of which the first is the name, tell the backends of the array.
abbrev pub names : List Backend → List (List CString)
names bs = map (λ b. b.settings) bs

-- What running a backend leaves alone.
pub record Kept (q q' : Query) : Type 0 where
  pub request : q'.request ≡ q.request
  pub callback : q'.callback ≡ q.callback
  pub notified : q'.notified ≡ q.notified
  pub backend : names q'.backend ≡ names q.backend

-- The same, and the state.
pub record Steady (q q' : Query) : Type 0 where
  pub request : q'.request ≡ q.request
  pub callback : q'.callback ≡ q.callback
  pub notified : q'.notified ≡ q.notified
  pub backend : names q'.backend ≡ names q.backend
  pub state : q'.state ≡ q.state

pub Kept-trans : (p q r : Query) → Kept p q → Kept q r → Kept p r
Kept-trans p q r h k = record {
  request = k.request ∙ h.request;
  callback = k.callback ∙ h.callback;
  notified = k.notified ∙ h.notified;
  backend = k.backend ∙ h.backend;
}

Steady-trans : (p q r : Query) → Steady p q → Steady q r → Steady p r
Steady-trans p q r h k = record {
  request = k.request ∙ h.request;
  callback = k.callback ∙ h.callback;
  notified = k.notified ∙ h.notified;
  backend = k.backend ∙ h.backend;
  state = k.state ∙ h.state;
}

pub watch_remove-Steady : (id : ℕ) (q : Query) → Steady q (watch_remove id q)
unfolding watch_remove
watch_remove-Steady id q = ground arith

remove_all-Steady : (ids : List ℕ) (q : Query) → Steady q (remove_all ids q)
unfolding remove_all
remove_all-Steady [] q = ground arith
remove_all-Steady (id ∷ ids) q =
    Steady-trans q _ _ (watch_remove-Steady id q) (remove_all-Steady ids (watch_remove id q))

clear_delayed-Steady : (q : Query) → Steady q (clear_delayed q)
unfolding clear_delayed
clear_delayed-Steady q = ground arith

clear_request_timeout-Steady : (q : Query) → Steady q (clear_request_timeout q)
unfolding clear_request_timeout
clear_request_timeout-Steady q = ground arith

clear_result_timeout-Steady : (q : Query) → Steady q (clear_result_timeout q)
unfolding clear_result_timeout
clear_result_timeout-Steady q = ground arith

cleanup_backend-Steady :
    (env : Env) (bs : List Backend) (q : Query)
    → names bs ≡ names q.backend
    → Steady q (cleanup_backend env bs q)
unfolding cleanup_backend
cleanup_backend-Steady env [] q h = ground arith
cleanup_backend-Steady env (b ∷ bs) q h =
    ground (arith, remove_all-Steady (env.cleanup b q.watches) q)

pub cleanup_query-Steady : (env : Env) (q : Query) → Steady q (cleanup_query env q)
unfolding cleanup_query
cleanup_query-Steady env q =
    let q₁ = clear_delayed q in
    let q₂ = clear_request_timeout q₁ in
    let q₃ = clear_result_timeout q₂ in
    Steady-trans q q₁ _ (clear_delayed-Steady q) (
      Steady-trans q₁ q₂ _ (clear_request_timeout-Steady q₁) (
        Steady-trans q₂ q₃ _ (clear_result_timeout-Steady q₂)
          (cleanup_backend-Steady env q₃.backend q₃ refl)))

-- With `more` the identity, as in a setup, paths come without a change of state.
abbrev pub stay : Query → Query
stay q = q

add_path-Steady : (env : Env) (p : AddrPath) (q : Query) → Steady q (add_path stay env p q)
unfolding add_path
add_path-Steady env p q = ground arith

add_found-Steady :
    (env : Env) (p : AddrPath) (fs : List Found) (q : Query) → Steady q (add_found stay env p fs q)
unfolding add_found
add_found-Steady env p [] q = ground arith
add_found-Steady env p (f ∷ fs) q =
    Steady-trans q _ _ (add_path-Steady env (found_path p f) q) (add_found-Steady env p fs _)

count_list-Steady : (s : CString) (q : Query) → Steady q (count_list s q)
unfolding count_list
count_list-Steady s q = ground arith

add_named_paths-Steady :
    (env : Env) (p : AddrPath) (s : CString) (q : Query) → Steady q (add_named_paths stay env p s q)
unfolding add_named_paths
add_named_paths-Steady env p s q =
    Steady-trans q (count_list s q) _ (count_list-Steady s q)
      (add_found-Steady env p (named_found env p s) (count_list s q))

add_paths_for-Steady :
    (env : Env) (a : PathArgs) (s : Option CString) (p : AddrPath) (q : Query)
    → Steady q (add_paths_for stay env a s p q)
unfolding add_paths_for
add_paths_for-Steady env a none p q = add_path-Steady env p q
add_paths_for-Steady env a (some s) p q = elim (Bool-cases (is_partial a)) [
  | inl e ↦ rw e (add_named_paths-Steady env p s q)
  | inr e ↦ rw e (add_path-Steady env p q)
]

add_service_paths-Steady :
    (env : Env) (a : PathArgs) (q : Query) → Steady q (add_service_paths stay env a q)
unfolding add_service_paths
add_service_paths-Steady env a q =
    add_paths_for-Steady env a q.request.servname (new_path q.request a) q

pub backend_add_path-Steady :
    (env : Env) (a : PathArgs) (q : Query) → Steady q (backend_add_path stay env a q)
unfolding backend_add_path
backend_add_path-Steady env a q = elim (Bool-cases (is_unwanted q.request a.family)) [
  | inl u ↦ rw u (ground arith)
  | inr u ↦ elim (Bool-cases (a.family == Af.unix && a.socktype == 0)) [
    | inr x ↦ rw (u, x) (add_service_paths-Steady env a q)
    | inl x ↦
        rw (u, x)
          (Steady-trans q _ _ (add_service_paths-Steady env (unix_args a Sock.stream) q)
            (add_service_paths-Steady env (unix_args a Sock.dgram) _))
  ]
]
