-- ===== src/Machine/Freeing.antt =====
-- The blocks that `netresolve_query_free` frees (lib/query.c).
use mathlib.Core.List.{append-nil, append_assoc}
use netresolve.Prelude.{
  ℕ, ◌≡◌, refl, sym, ap, ◌∙◌, Bool, true, false, List, [], ◌∷◌, ◌++◌, arith, is_some, ltb,
  if◌then◌else◌,
}
use netresolve.Types.{State, Request, Response}
use netresolve.Query.{Backend, Query, Env, Owned, Fault, check}
use netresolve.Watch.{watch_remove, remove_all}
use netresolve.Machine.{
  cleanup_query, cleanup_backend, clear_delayed, clear_request_timeout, clear_result_timeout,
  enter_none, same_state, free_if, has_paths,
}
use netresolve.Machine.Entering.{set_state, enter}
use netresolve.Machine.Dispatch.{free_query, free_request, check_released}

-- What cleaning up leaves alone.
pub record Intact (q q' : Query) : Type 0 where
  pub state : q'.state ≡ q.state
  pub request : q'.request ≡ q.request
  pub response : q'.response ≡ q.response
  pub freed : q'.freed ≡ q.freed
  pub lists : q'.lists ≡ q.lists

Intact-trans : (p q r : Query) → Intact p q → Intact q r → Intact p r
Intact-trans p q r h k = record {
  state = k.state ∙ h.state;
  request = k.request ∙ h.request;
  response = k.response ∙ h.response;
  freed = k.freed ∙ h.freed;
  lists = k.lists ∙ h.lists;
}

watch_remove-Intact : (id : ℕ) (q : Query) → Intact q (watch_remove id q)
unfolding watch_remove
watch_remove-Intact id q = ground arith

remove_all-Intact : (ids : List ℕ) (q : Query) → Intact q (remove_all ids q)
unfolding remove_all
remove_all-Intact [] q = ground arith
remove_all-Intact (id ∷ ids) q =
    Intact-trans q _ _ (watch_remove-Intact id q) (remove_all-Intact ids (watch_remove id q))

cleanup_backend-Intact :
    (env : Env) (bs : List Backend) (q : Query) → Intact q (cleanup_backend env bs q)
unfolding cleanup_backend
cleanup_backend-Intact env [] q = ground arith
cleanup_backend-Intact env (b ∷ bs) q =
    ground (arith, remove_all-Intact (env.cleanup b q.watches) q)

pub clear_delayed-Intact : (q : Query) → Intact q (clear_delayed q)
unfolding clear_delayed
clear_delayed-Intact q = ground arith

pub clear_request_timeout-Intact : (q : Query) → Intact q (clear_request_timeout q)
unfolding clear_request_timeout
clear_request_timeout-Intact q = ground arith

pub clear_result_timeout-Intact : (q : Query) → Intact q (clear_result_timeout q)
unfolding clear_result_timeout
clear_result_timeout-Intact q = ground arith

pub cleanup_query-Intact : (env : Env) (q : Query) → Intact q (cleanup_query env q)
unfolding cleanup_query
cleanup_query-Intact env q =
    let q₁ = clear_delayed q in
    let q₂ = clear_request_timeout q₁ in
    let q₃ = clear_result_timeout q₂ in
    Intact-trans q q₁ _ (clear_delayed-Intact q) (
      Intact-trans q₁ q₂ _ (clear_request_timeout-Intact q₁) (
        Intact-trans q₂ q₃ _ (clear_result_timeout-Intact q₂)
          (cleanup_backend-Intact env q₃.backend q₃)))

abbrev one_if : Bool → Owned → List Owned
one_if b o = if b then o ∷ [] else []

free_if-freed : (b : Bool) (o : Owned) (q : Query) → (free_if b o q).freed ≡ q.freed ++ one_if b o
free_if-freed true o q = refl
free_if-freed false o q = sym (append-nil q.freed)

check-freed : (b : Bool) (f : Fault) (q : Query) → (check b f q).freed ≡ q.freed
check-freed true f q = refl
check-freed false f q = refl

-- What a query owns through its response, and through its request.
abbrev pub of_response : Request → Response → ℕ → List Owned
of_response request response lists =
    one_if (is_some request.dns_name) Owned.request_dns_name
    ++ (one_if (has_paths response) Owned.paths
        ++ (one_if (is_some response.nodename) Owned.nodename
            ++ (one_if (is_some response.servname) Owned.servname
                ++ one_if (ltb 0 lists) Owned.services)))

abbrev pub of_request : Request → List Owned
of_request request =
    one_if (is_some request.nodename) Owned.request_nodename
    ++ (one_if (is_some request.servname) Owned.request_servname
        ++ one_if (is_some request.dns_name) Owned.request_dns_name)

enter_none-freed :
    (q : Query) → (enter_none q).freed ≡ q.freed ++ of_response q.request q.response q.lists
unfolding enter_none
enter_none-freed q = simp (free_if-freed, append_assoc)

free_request-freed : (r : Request) (q : Query) → (free_request r q).freed ≡ q.freed ++ of_request r
unfolding free_request
free_request-freed r q = simp (free_if-freed, append_assoc)

check_released-freed : (q : Query) → (check_released q).freed ≡ q.freed
unfolding check_released
check_released-freed q = check-freed _ _ _ ∙ check-freed _ _ q

free_if-request : (b : Bool) (o : Owned) (q : Query) → (free_if b o q).request ≡ q.request
free_if-request true o q = refl
free_if-request false o q = refl

pub enter_none-request : (q : Query) → (enter_none q).request ≡ q.request
unfolding enter_none
enter_none-request q = simp free_if-request

-- Freeing a query that has been started frees what its response owns and then what its request owns.
-- Both hold the name of a DNS query, which is so freed twice; of the service lists that were read one
-- is freed, and the DNS answer never is.
pub free_query-freed :
    (env : Env) (q : Query)
    → same_state State.none q.state ≡ false
    → (free_query env q).freed
      ≡ q.freed ++ (of_response q.request q.response q.lists ++ of_request q.request)
unfolding free_query set_state enter
free_query-freed env q new =
    let c = cleanup_query env q in
    let k = cleanup_query-Intact env q in
    let n = record c { state = State.none } in
    let q' = set_state env State.none c in
    let entered : q' ≡ enter_none n = rw (k.state, new) in
    let request : q'.request ≡ q.request =
      ap (λ (x : Query). x.request) entered ∙ enter_none-request n ∙ k.request in
    let freed : q'.freed ≡ q.freed ++ of_response q.request q.response q.lists =
      ap (λ (x : Query). x.freed) entered
      ∙ enter_none-freed n
      ∙ rw (k.freed, k.request, k.response, k.lists) in
    free_request-freed q'.request (check_released q')
    ∙ ap (λ l. l ++ of_request q'.request) (check_released-freed q' ∙ freed)
    ∙ ap (λ r. (q.freed ++ of_response q.request q.response q.lists) ++ of_request r) request
    ∙ append_assoc q.freed _ _
