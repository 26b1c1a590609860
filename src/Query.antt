-- ===== src/Query.antt =====
-- struct netresolve_query of include/netresolve-private.h, and what the code takes from outside: the
-- backends, which are plugins, and the operating system.
use netresolve.Prelude.{
  ℕ, ℤ, Bool, false, Option, none, List, [], ◌∷◌, ◌++◌, CString, if◌then◌else◌,
}
use netresolve.Types.{State, RequestType, Request, Response, Node, zero_request, zero_response}
use netresolve.Service.{ServiceRecord}

-- A backend's calls of the functions of include/netresolve-backend.h that change a query.
pub data Call : Type 0 where
  add_path : ℕ → List ℕ → ℤ → ℕ → ℕ → ℤ → ℤ → ℤ → ℤ → Call
  set_canonical_name : CString → Call
  add_name_info : Option CString → Option CString → Call
  set_secure : Call
  set_dns_answer : List ℕ → Call
  new_priv : Bool → Call
  watch_add : ℕ → ℕ → Call
  watch_remove : ℕ → Call
  timeout_add : ℕ → Call
  finished : Call
  failed : Call

-- struct netresolve_backend. Whether `cleanup` and `data` are set is what the library asks of them.
pub record Backend : Type 0 where
  pub mandatory : Bool
  pub settings : List CString
  pub cleanup : Bool
  pub data_set : Bool

-- The callback of a watch: a plugin's, or that of one of the query's own timeouts.
pub data WatchCallback : Type 0 where
  plugin : ℕ → WatchCallback
  request_timeout result_timeout delayed : WatchCallback

-- struct netresolve_watch; the number stands for its address
pub record Watch : Type 0 where
  pub id : ℕ
  pub fd : ℕ
  pub callback : WatchCallback

-- What goes wrong where C code aborts or is undefined: a failed `assert`, a step past the end of the
-- array of backends, the use of a backend that is NULL, the use of a watch that is gone, and reading the first
-- path where the pointer to the paths, or that to the query, is NULL.
pub data Fault : Type 0 where
  assertion past_end null_backend dangling_watch null_paths : Fault

-- The heap blocks that a query owns.
pub data Owned : Type 0 where
  request_nodename request_servname request_dns_name : Owned
  paths nodename servname dns_answer services : Owned

-- `watches`, `nfds` and `next_watch` (a watch number not used yet) are the watch list. `backend` is
-- the array from `*query->backend` on, without its NULL. `callback` says whether one is installed,
-- `notified` has the state at each of its calls; `freed`, `lists` (service lists allocated),
-- `eventfds` (event descriptors opened) and `faults` record what happened to the query.
pub record Query : Type 0 where
  pub state : State
  pub watches : List Watch
  pub nfds : ℕ
  pub next_watch : ℕ
  pub delayed : Option ℕ
  pub request_timeout : Option ℕ
  pub result_timeout : Option ℕ
  pub backend : List Backend
  pub request : Request
  pub response : Response
  pub callback : Bool
  pub notified : List State
  pub freed : List Owned
  pub lists : ℕ
  pub eventfds : ℕ
  pub faults : List Fault

-- A query with no bit set, as `calloc` leaves it.
abbrev pub zero_query : Query
zero_query = record {
  state = State.none;
  watches = [];
  nfds = 0;
  next_watch = 0;
  delayed = none;
  request_timeout = none;
  result_timeout = none;
  backend = [];
  request = zero_request;
  response = zero_response;
  callback = false;
  notified = [];
  freed = [];
  lists = 0;
  eventfds = 0;
  faults = [];
}

-- What the plugins and the system do. `setup` is what `dlsym` found for a request type, as the calls
-- that it makes on a request; `on_event` those of a watch callback; `cleanup` the watches that the
-- cleanup function of a backend removes, out of those that there are; `timerfd` the descriptor of a
-- new timer, if the system has one; `connects` whether a datagram socket connects to a node; `sort`
-- the setting NETRESOLVE_SORT_RESULTS; `services` the services file as it is read.
pub record Env : Type 0 where
  pub setup : Backend → RequestType → Option (Request → List Call)
  pub on_event : ℕ → Request → List Call
  pub cleanup : Backend → List Watch → List ℕ
  pub timerfd : ℕ → Option ℕ
  pub connects : Node → Bool
  pub sort : Bool
  pub services : List ServiceRecord

abbrev pub fault : Fault → Query → Query
fault f q = record q { faults = q.faults ++ f ∷ [] }

abbrev pub check : Bool → Fault → Query → Query
check ok f q = if ok then q else fault f q
