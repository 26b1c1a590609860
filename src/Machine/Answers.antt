-- ===== src/Machine/Answers.antt =====
-- The answers of a query (lib/backend.c): the paths that its response may hold.
pub mod Lives
use netresolve.Prelude.{
  ℕ, ℤ, pos, ◌≡◌, refl, sym, ap, ◌∙◌, ◌⊎◌, inl, inr, Bool, true, false, Option, none, some, List,
  [], ◌∷◌, ◌++◌, CString, arith, All, Bool-cases, ◌==◌, ◌&&◌, not, is_some,
}
use netresolve.Types.{State, Request, Node, AddrPath}
use netresolve.Types.Af
use netresolve.Types.Sock
use netresolve.Paths.{insert_path, check_reachability}
use netresolve.Paths.Order.{
  IsSorted, insert_path-All, insert_path-IsSorted, check_reachability-family,
}
use netresolve.Service.Search.{Found}
use netresolve.Query.{Call, Backend, WatchCallback, Query, Env, check, fault}
use netresolve.Watch.{watch_add, watch_remove, timeout_add}
use netresolve.Output.{
  PathArgs, add_path, add_found, add_service_paths, add_named_paths, backend_add_path,
  set_canonical_name, add_name_info, set_secure, set_dns_answer, is_waiting, is_unwanted,
  found_path, named_found, count_list, new_path, add_paths_for, is_partial, unix_args,
}
use netresolve.Machine.Laws.{Laws}
use netresolve.Machine.Freeing.{enter_none-request}
use netresolve.Machine.{
  enter_none, do_call, do_calls, finished, failed, enter_resolved, new_priv, new_priv_in,
  plugin_timeout,
}

-- A path is for the family that the request is limited to, if it is limited to one.
abbrev pub IsWanted : ℕ → AddrPath → Type 0
IsWanted family p = (family ≡ Af.unspec) ⊎ (family ≡ p.node.family)

-- The response has only wanted paths, and in the order of preference unless sorting is switched off.
abbrev pub IsAnswer : Env → Query → Type 0
IsAnswer env q =
    All (IsWanted q.request.family) q.response.paths × (env.sort ≡ true → IsSorted q.response.paths)

-- `q'` comes from `q` with the family of the request and what IsAnswer says.
pub record Follows (env : Env) (q q' : Query) : Type 0 where
  pub family : q'.request.family ≡ q.request.family
  pub answer : IsAnswer env q → IsAnswer env q'

pub Follows-trans :
    (env : Env) (p q r : Query) → Follows env p q → Follows env q r → Follows env p r
Follows-trans env p q r h k = record {
  family = k.family ∙ h.family;
  answer = λ a. k.answer (h.answer a);
}

pub Follows-same :
    (env : Env) (q q' : Query)
    → q'.request.family ≡ q.request.family
    → q'.response.paths ≡ q.response.paths
    → Follows env q q'
Follows-same env q q' f p = record { family = f; answer = λ a. rw (f, p) a }

inserted :
    (env : Env) (path : AddrPath) (q : Query)
    → IsWanted q.request.family path
    → IsAnswer env q
    → All (IsWanted q.request.family) (insert_path env.sort path q.response.paths)
      × (env.sort ≡ true → IsSorted (insert_path env.sort path q.response.paths))
inserted env path q w (wanted, sorted) = (
  insert_path-All (IsWanted q.request.family) env.sort path q.response.paths w wanted,
  λ on. rw on (insert_path-IsSorted path q.response.paths (sorted on)),
)

-- The path is added, and then `more` may run.
add_path-put : Env → AddrPath → Query → Query
add_path-put env path q = record q {
  response = record q.response { paths = insert_path env.sort path q.response.paths };
}

put-Follows :
    (env : Env) (path : AddrPath) (q : Query)
    → IsWanted q.request.family path
    → Follows env q (add_path-put env path q)
unfolding add_path-put
put-Follows env path q w = record { family = refl; answer = inserted env path q w }

checked :
    (env : Env) (path : AddrPath) (family : ℕ)
    → IsWanted family path
    → IsWanted family (check_reachability env.connects path)
checked env path family w = rw (check_reachability-family env.connects path) w

module _ (env : Env) (more : Query → Query) (goes_on : (q : Query) → Follows env q (more q)) where
  add_path-Follows :
      (path : AddrPath) (q : Query)
      → IsWanted q.request.family path
      → Follows env q (add_path more env path q)
  unfolding add_path add_path-put
  add_path-Follows path q w =
      let path' = check_reachability env.connects path in
      let put = put-Follows env path' q (checked env path q.request.family w) in
      elim (Bool-cases (is_waiting q.state)) [
        | inl e ↦ rw e (
            Follows-trans env q (add_path-put env path' q) _ put
              (goes_on (add_path-put env path' q)))
        | inr e ↦ rw e put
      ]

  add_found-Follows :
      (path : AddrPath) (fs : List Found) (q : Query)
      → IsWanted q.request.family path
      → Follows env q (add_found more env path fs q)
  unfolding add_found found_path
  add_found-Follows path [] q w = Follows-same env q q refl refl
  add_found-Follows path (f ∷ fs) q w =
      let q' = add_path more env (found_path path f) q in
      let first = add_path-Follows (found_path path f) q w in
      Follows-trans env q q' _ first (add_found-Follows path fs q' (rw (first.family) w))

  add_named_paths-Follows :
      (path : AddrPath) (s : CString) (q : Query)
      → IsWanted q.request.family path
      → Follows env q (add_named_paths more env path s q)
  unfolding add_named_paths count_list
  add_named_paths-Follows path s q w =
      Follows-trans env q (count_list s q) _ (Follows-same env q (count_list s q) refl refl)
        (add_found-Follows path (named_found env path s) (count_list s q) w)

  add_paths_for-Follows :
      (a : PathArgs) (s : Option CString) (path : AddrPath) (q : Query)
      → IsWanted q.request.family path
      → Follows env q (add_paths_for more env a s path q)
  unfolding add_paths_for
  add_paths_for-Follows a none path q w = add_path-Follows path q w
  add_paths_for-Follows a (some s) path q w = elim (Bool-cases (is_partial a)) [
    | inl e ↦ rw e (add_named_paths-Follows path s q w)
    | inr e ↦ rw e (add_path-Follows path q w)
  ]

  -- The arguments are for a family that the request may have.
  abbrev Fits : PathArgs → Query → Type 0
  Fits a q = (q.request.family ≡ Af.unspec) ⊎ (q.request.family ≡ a.family)

  add_service_paths-Follows :
      (a : PathArgs) (q : Query) → Fits a q → Follows env q (add_service_paths more env a q)
  unfolding add_service_paths new_path
  add_service_paths-Follows a q w =
      add_paths_for-Follows a q.request.servname (new_path q.request a) q w

  Fits-wanted : (a : PathArgs) (q : Query) → is_unwanted q.request a.family ≡ false → Fits a q
  Fits-wanted a q h = ground arith

  backend_add_path-Follows :
      (a : PathArgs) (q : Query) → Follows env q (backend_add_path more env a q)
  unfolding backend_add_path
  backend_add_path-Follows a q = elim (Bool-cases (is_unwanted q.request a.family)) [
    | inl u ↦ rw u (Follows-same env q q refl refl)
    | inr u ↦ elim (Bool-cases (a.family == Af.unix && a.socktype == 0)) [
      | inr x ↦ rw (u, x) (add_service_paths-Follows a q (Fits-wanted a q u))
      | inl x ↦
          let w = Fits-wanted a q u in
          let first = add_service_paths-Follows (unix_args a Sock.stream) q w in
          rw (u, x)
            (Follows-trans env q _ _ first
              (add_service_paths-Follows (unix_args a Sock.dgram) _ (rw (first.family) w)))
    ]
  ]

watch_remove-Follows : (env : Env) (id : ℕ) (q : Query) → Follows env q (watch_remove id q)
unfolding watch_remove
watch_remove-Follows env id q = Follows-same env q _ (ground arith) (ground arith)

enter_none-Follows : (env : Env) (q : Query) → Follows env q (enter_none q)
unfolding enter_none
enter_none-Follows env q = record {
  family = ap (λ r. r.family) (enter_none-request q);
  answer = λ a. (tt, λ on. tt);
}

pub Follows-Laws : (env : Env) → Laws env (Follows env)
unfolding watch_add
Follows-Laws env = record {
  trans = Follows-trans env;
  same = λ q q' s. Follows-same env q q' s.family s.paths;
  path = λ more go a q. backend_add_path-Follows env more go a q;
  added = λ fd c q. Follows-same env q _ refl refl;
  removed = watch_remove-Follows env;
  emptied = enter_none-Follows env;
}
