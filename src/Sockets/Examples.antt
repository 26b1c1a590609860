-- ===== src/Sockets/Examples.antt =====
-- A connection to an IPv6 and an IPv4 address: the first cannot be reached, the second is being
-- connected to, becomes writable and is handed over.
use netresolve.Prelude.{
  ℕ, pos, ◌+◌, ◌≤◌, ◌≡◌, ◌≢◌, refl, true, false, none, some, [], ◌∷◌, if◌then◌else◌, ◌==◌,
  get_elem?,
}
use netresolve.Types.{State, SocketState, AddrPath, zero_response, zero_socket}
use netresolve.Query.{zero_query, Env, Fault}
use netresolve.Watch.{find_watch, unlink}
use netresolve.Sockets.{Connection, Net, Errno, paths}
use netresolve.Sockets.Handlers.{connect_prepare, connect_ready}
use netresolve.Sockets.Listening.{ListenNet, listen_callback, connect_free, listen_free}
use netresolve.Sockets.Ledger.{Ledger, no_extra, count, handed}
use netresolve.Sockets.Ledger.Release.{used_count}
use netresolve.Sockets.Ledger.Giving.{connect-Ledger}
use netresolve.Sockets.Events.{Event, Events, connect-returns}

abbrev env : Env
env = record {
  setup = λ b t. none;
  on_event = λ n r. [];
  cleanup = λ b ws. [];
  timerfd = λ n. some n;
  connects = λ n. true;
  sort = true;
  services = [];
}

abbrev net : Net
net = record {
  env = env;
  fd = λ i. pos (i + 5);
  errno = λ i. if i == 0 then Errno.other else Errno.in_progress;
}

abbrev path_to : ℕ → AddrPath
path_to family = record {
  node = record { family = family; address = []; ifindex = pos 0; reachable = true };
  service = record { socktype = 1; protocol = 6; port = pos 80 };
  priority = pos 0;
  weight = pos 0;
  ttl = pos 0;
  socket = zero_socket;
}

abbrev found : Connection
found = record {
  query = record zero_query {
    state = State.done;
    response = record zero_response { paths = path_to 10 ∷ path_to 2 ∷ [] };
    callback = true;
  };
  prepared = false;
  timeout = none;
  priority_timeout = none;
  skip_scheduled = false;
  sequential_connect = false;
  passed = [];
  closed = [];
  unfinished = false;
}

abbrev started : Connection
started = connect_prepare net found

abbrev connected : Connection
connected = connect_ready net 1 Errno.success started

passed_on : connected.passed ≡ (1, pos 6) ∷ []
unfolding connect_prepare connect_ready find_watch unlink
passed_on = refl

closed_on : connected.closed ≡ pos 5 ∷ []
unfolding connect_prepare connect_ready find_watch unlink
closed_on = refl

no_faults : connected.query.faults ≡ []
unfolding connect_prepare connect_ready find_watch unlink
no_faults = refl

abbrev second : AddrPath
second = record (path_to 2) {
  socket = record { state = SocketState.scheduled; watch = some 1; fd = pos 6 };
}

second_waits : get_elem? (paths started) 1 ≡ some second
unfolding connect_prepare
second_waits = refl

events : Events net started connected
events =
    Events.more started connected connected
      (Event.ready 1 Errno.success second started second_waits refl) (Events.stop connected)

two_paths : paths found ≢ []
two_paths e = cc

connect-returns_example : (connected.unfinished ≡ false) × (paths connected ≢ [])
connect-returns_example = connect-returns net found connected two_paths events

-- A query without a path, as one that failed: its paths are a NULL that is dereferenced.
abbrev failed : Connection
failed = record found { query = record zero_query { state = State.failed; callback = true } }

null_read : (connect_prepare net failed).query.faults ≡ Fault.null_paths ∷ []
unfolding connect_prepare
null_read = refl

-- So is the query, before the callback has set it.
unprepared_free : (connect_free found).query.faults ≡ Fault.null_paths ∷ []
unfolding connect_free find_watch unlink
unprepared_free = refl

-- The listening side: the bind of the second path fails, and its descriptor is closed again when the
-- sockets are released.
abbrev half_bound : ListenNet
half_bound = record {
  fd = λ i. pos (i + 5);
  reuse = λ i. true;
  v6only = λ i. true;
  bound = λ i. i == 0;
}

closed_again : (listen_free (listen_callback half_bound found)).closed ≡ pos 6 ∷ pos 5 ∷ pos 6 ∷ []
unfolding listen_free listen_callback
closed_again = refl

connect-Ledger_example :
    Ledger net no_extra connected
    × ((x : ℕ)
        → used_count x net.fd 0 (paths connected)
          ≤ count x (connect_free connected).closed + handed x connected.passed)
connect-Ledger_example =
    connect-Ledger net found connected
      (record { fresh = (refl, (refl, tt)); none_closed = refl; none_passed = refl }) events
