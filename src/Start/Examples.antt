-- ===== src/Start/Examples.antt =====
-- A query (lib/query.c) in a context that forces IPv6.
use netresolve.Prelude.{◌≡◌, ◌⊎◌, refl, pos, true, false, codes, none, some, List, [], ◌∷◌, ℕ}
use netresolve.Types.{State, RequestType, Request, zero_request}
use netresolve.Types.Af
use netresolve.Options.{set_options, set_option}
use netresolve.Context.{Context, Variables}
use netresolve.Query.{zero_query, Call, Backend, Query, Env}
use netresolve.Machine.Entering.{set_state}
use netresolve.Machine.Answers.{IsAnswer}
use netresolve.Machine.Laws.Lives.{dispatch_all}
use netresolve.Start.Lives.{query-IsAnswer}
use netresolve.Start.{
  query, query_new, start_query, force, blank_query, context_backends, forward_settings,
}

abbrev host : List ℕ
host = 192 ∷ 0 ∷ 2 ∷ 1 ∷ []

-- A backend that finds an address of each family.
abbrev backend : Backend
backend = record { mandatory = false; settings = codes "b" ∷ []; cleanup = false; data_set = false }

abbrev found : Request → List Call
found r =
    Call.add_path Af.inet host (pos 0) 0 0 (pos 0) (pos 0) (pos 0) (pos 0)
    ∷ Call.add_path Af.inet6 [] (pos 0) 0 0 (pos 0) (pos 0) (pos 0) (pos 0)
    ∷ Call.finished
    ∷ []

abbrev env : Env
env = record {
  setup = λ b t. some found;
  on_event = λ n r. [];
  cleanup = λ b ws. [];
  timerfd = λ n. some n;
  connects = λ n. true;
  sort = true;
  services = [];
}

-- A context that forces IPv6.
abbrev context : Context
context = record { request = zero_request; backends = backend ∷ []; force_family = Af.inet6 }

abbrev variables : Variables
variables = record {
  force_family = none;
  default_loopback = none;
  clamp_ttl = none;
  request_timeout = none;
  result_timeout = none;
  backends = none;
}

abbrev started : Query
started = set_state env State.setup (record zero_query {
  backend = backend ∷ [];
  request = record zero_request { nodename = some (codes "host"); family = Af.inet6 };
  callback = true;
})

start :
    query
      (λ s. true)
      variables
      env
      context
      RequestType.forward
      (forward_settings (some (codes "host")) none)
    ≡ some (some started)
unfolding query query_new start_query force blank_query context_backends set_options set_option
    forward_settings
start = refl

query-IsAnswer_example :
    IsAnswer env (dispatch_all env (0 ∷ []) started)
    × ((Af.inet6 ≡ Af.unspec) ⊎ ((dispatch_all env (0 ∷ []) started).request.family ≡ Af.inet6))
query-IsAnswer_example =
    query-IsAnswer (λ s. true) variables env context RequestType.forward
      (forward_settings (some (codes "host")) none) (0 ∷ []) started start
