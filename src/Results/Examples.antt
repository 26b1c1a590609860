-- ===== src/Results/Examples.antt =====
-- Results (lib/backend.c) with an address each.
use netresolve.Prelude.{none, Bool, ℕ, pos, ◌≡◌, false, true, some, List, [], ◌∷◌}
use netresolve.Types.{State}
use netresolve.Types.Af
use netresolve.Types.Sock
use netresolve.Types.Ipproto
use netresolve.Query.{zero_query, Query, Env}
use netresolve.Machine.Entering.{run_calls}
use netresolve.Results.{AddrInfo, Status, AddrTuple, apply_addrinfo, apply_addrtuple}
use netresolve.Results.Outcome.{results-outcome}

abbrev host : List ℕ
host = 192 ∷ 0 ∷ 2 ∷ 1 ∷ []

abbrev info : AddrInfo
info = record {
  family = Af.inet;
  socktype = Sock.stream;
  protocol = Ipproto.tcp;
  address = host;
  scope = 0;
  port = 80;
}

abbrev tuple : AddrTuple
tuple = record { family = Af.inet; address = host; scope = 0 }

abbrev env : Env
env = record {
  setup = λ b t. none;
  on_event = λ n r. [];
  cleanup = λ b ws. [];
  timerfd = λ n. some n;
  connects = λ n. true;
  sort = true;
  services = [];
}

-- The path makes the query wait for more.
abbrev waiting_query : Query
waiting_query = record zero_query { state = State.waiting }

abbrev linklocal : List ℕ → Bool
linklocal address = false

results-outcome_example :
    ((run_calls env
        (apply_addrinfo linklocal Status.success (info ∷ []) (pos 0))
        waiting_query).state
      ≡ State.resolved)
    × ((run_calls env (apply_addrtuple true (tuple ∷ []) (pos 0)) waiting_query).state
        ≡ State.resolved)
results-outcome_example =
    results-outcome env linklocal Status.success (info ∷ []) true (tuple ∷ []) (pos 0) waiting_query
