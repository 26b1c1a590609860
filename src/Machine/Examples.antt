-- ===== src/Machine/Examples.antt =====
-- The life of a query (lib/query.c) with two backends: one that fails, and a mandatory one that
-- finishes.
use netresolve.Prelude.{◌≡◌, refl, true, false, if◌then◌else◌, some, List, [], ◌∷◌, codes}
use netresolve.Types.{State, Request, zero_request}
use netresolve.Query.{zero_query, Call, Backend, Query, Env, Owned}
use netresolve.Machine.Entering.{set_state}
use netresolve.Machine.Dispatch.{free_query}
use netresolve.Machine.Failover.Chain.{set_state-chosen}
use netresolve.Machine.Failover.Search.{Tried}
use netresolve.Machine.Failover.Started.{HasStarted, set_state-HasStarted}
use netresolve.Machine.Failover.Done.{IsNext, done_reports, set_state-done_reports}
use netresolve.Machine.Freeing.{free_query-freed}

abbrev optional : Backend
optional = record {
  mandatory = false;
  settings = codes "any" ∷ [];
  cleanup = false;
  data_set = false;
}

abbrev required : Backend
required = record {
  mandatory = true;
  settings = codes "+hosts" ∷ [];
  cleanup = false;
  data_set = false;
}

-- An optional backend fails, a mandatory one finishes.
abbrev answer : Backend → Request → List Call
answer b r = if b.mandatory then Call.finished ∷ [] else Call.failed ∷ []

abbrev env : Env
env = record {
  setup = λ b t. some (answer b);
  on_event = λ n r. [];
  cleanup = λ b ws. [];
  timerfd = λ n. some n;
  connects = λ n. true;
  sort = true;
  services = [];
}

abbrev new_query : List Backend → Query
new_query backends = record zero_query {
  backend = backends;
  request = record zero_request { dns_name = some (codes "host") };
  callback = true;
}

abbrev both : List Backend
both = optional ∷ required ∷ []

-- With an optional backend more in front.
abbrev three : List Backend
three = optional ∷ both

set_state-chosen_example :
    Tried env both (new_query both) (set_state env State.setup (new_query both))
set_state-chosen_example = set_state-chosen env (new_query both) refl (λ e. cc)

set_state-HasStarted_example : HasStarted (set_state env State.setup (new_query both)).state
set_state-HasStarted_example = set_state-HasStarted env (new_query both) refl (λ e. cc)

-- The callback is called once, in the state resolved that the mandatory backend has left.
set_state-done_reports_example :
    (next : List Backend) × IsNext (optional ∷ required ∷ []) next
    × ((set_state env State.done (new_query three)).notified
        ≡ done_reports env (new_query three).request [] next)
set_state-done_reports_example =
    set_state-done_reports env (new_query three) optional (optional ∷ required ∷ []) refl refl refl

resolved : Query
resolved = record (new_query both) { state = State.resolved }

free_query-freed_example :
    (free_query env resolved).freed ≡ Owned.request_dns_name ∷ Owned.request_dns_name ∷ []
unfolding resolved
free_query-freed_example = free_query-freed env resolved refl
