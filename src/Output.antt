-- ===== src/Output.antt =====
-- lib/backend.c: what a backend reads of a query, and what it puts into the response.
-- `more` is the change to NETRESOLVE_STATE_WAITING_MORE, which Machine supplies.
use netresolve.Prelude.{
  ℕ, ℤ, pos, ◌+◌, ◌%◌, Bool, true, false, not, ◌&&◌, ◌||◌, Option, none, some, List, [], ◌∷◌,
  CString, take, ◌==◌, if◌then◌else◌, is_some, is_nonzero,
}
use netresolve.Libc.{c_str}
use netresolve.Types.{State, Security, Request, AddrPath, zero_socket}
use netresolve.Types.Af
use netresolve.Types.Sock
use netresolve.Paths.{family_to_length, check_reachability, insert_path}
use netresolve.Service.Search.{Found, service_list_query, reads_list}
use netresolve.Query.{Query, Env}

-- `netresolve_backend_get_nodename`
unfoldable pub get_nodename : Request → Option CString
get_nodename r = elim r.dns_name [ none ↦ r.nodename | some name ↦ some name ]

-- `netresolve_backend_get_port` returns a uint16_t
unfoldable pub get_port : Request → ℕ
get_port r = r.port % 65536

abbrev pub is_waiting : State → Bool
is_waiting State.waiting = true
is_waiting _ = false

-- `add_path`
unfoldable pub add_path : (Query → Query) → Env → AddrPath → Query → Query
add_path more env orig_path q =
    let path = check_reachability env.connects orig_path in
    let q' = record q {
      response = record q.response { paths = insert_path env.sort path q.response.paths };
    } in
    if is_waiting q.state then more q' else q'

-- `path_callback`
unfoldable pub found_path : AddrPath → Found → AddrPath
found_path path f = record path {
  service = record { socktype = f.socktype; protocol = f.protocol; port = f.port };
}

unfoldable pub add_found : (Query → Query) → Env → AddrPath → List Found → Query → Query
unfolding add_path found_path
add_found more env path [] q = q
add_found more env path (f ∷ fs) q =
    add_found more env path fs (add_path more env (found_path path f) q)

-- What `netresolve_backend_add_path` is given.
pub record PathArgs : Type 0 where
  pub family : ℕ
  pub address : List ℕ
  pub ifindex : ℤ
  pub socktype : ℕ
  pub protocol : ℕ
  pub port : ℤ
  pub priority : ℤ
  pub weight : ℤ
  pub ttl : ℤ

abbrev or_else : ℕ → ℕ → ℕ
or_else a b = if a == 0 then b else a

-- the address that is stored: a fixed number of bytes, or a string that fits the buffer
pub stored_address : ℕ → List ℕ → List ℕ
stored_address family address =
    if family_to_length family == 0
    then take 1023 (c_str address)
    else take (family_to_length family) address

-- the path that `netresolve_backend_add_path` builds
unfoldable pub new_path : Request → PathArgs → AddrPath
unfolding stored_address
new_path request a = record {
  node = record {
    family = a.family;
    address = stored_address a.family a.address;
    ifindex = a.ifindex;
    reachable = false;
  };
  service = record {
    socktype = or_else a.socktype request.socktype;
    protocol = or_else a.protocol request.protocol;
    port = a.port;
  };
  priority = a.priority;
  weight = a.weight;
  ttl = a.ttl;
  socket = zero_socket;
}

abbrev pub is_partial : PathArgs → Bool
is_partial a = a.socktype == 0 || a.protocol == 0 || not (is_nonzero a.port)

-- what the service list reports on the service name of the request
pub named_found : Env → AddrPath → CString → List Found
named_found env path servname =
    service_list_query env.services (some servname) path.service.socktype path.service.protocol
      (pos 0)

-- the list that the query on a service name allocates, if it reads one
unfoldable pub count_list : CString → Query → Query
count_list servname q = record q {
  lists = if reads_list (some servname) (pos 0) then q.lists + 1 else q.lists;
}

-- the paths for a service name, one for each report on it
unfoldable pub add_named_paths : (Query → Query) → Env → AddrPath → CString → Query → Query
unfolding add_found named_found count_list
add_named_paths more env path servname q =
    add_found more env path (named_found env path servname) (count_list servname q)

-- whether there is a service name, and a part of the service is not given
unfoldable pub add_paths_for :
    (Query → Query) → Env → PathArgs → Option CString → AddrPath → Query → Query
unfolding add_named_paths add_path
add_paths_for more env a none path q = add_path more env path q
add_paths_for more env a (some servname) path q =
    if is_partial a then add_named_paths more env path servname q else add_path more env path q

-- the paths of `netresolve_backend_add_path` for one socket type
unfoldable pub add_service_paths : (Query → Query) → Env → PathArgs → Query → Query
unfolding new_path add_paths_for
add_service_paths more env a q =
    add_paths_for more env a q.request.servname (new_path q.request a) q

abbrev pub unix_args : PathArgs → ℕ → PathArgs
unix_args a socktype = record a { ifindex = pos 0; socktype = socktype; protocol = 0; port = pos 0 }

-- whether the request is for another family
abbrev pub is_unwanted : Request → ℕ → Bool
is_unwanted request family = not (request.family == Af.unspec) && not (request.family == family)

-- `netresolve_backend_add_path`
unfoldable pub backend_add_path : (Query → Query) → Env → PathArgs → Query → Query
unfolding add_service_paths
backend_add_path more env a q =
    if is_unwanted q.request a.family
    then q
    else if a.family == Af.unix && a.socktype == 0
    then add_service_paths more env (unix_args a Sock.dgram)
        (add_service_paths more env (unix_args a Sock.stream) q)
    else add_service_paths more env a q

-- `netresolve_backend_set_canonical_name`
unfoldable pub set_canonical_name : CString → Query → Query
set_canonical_name name q = record q { response = record q.response { nodename = some name } }

-- `service_callback` on each report: the first name is kept
unfoldable pub first_name : Option CString → List Found → Option CString
first_name servname [] = servname
first_name servname (f ∷ fs) = first_name (if is_some servname then servname else f.name) fs

-- `netresolve_backend_add_name_info`; its argument `servname` is only logged
unfoldable pub add_name_info : Env → Option CString → Option CString → Query → Query
unfolding first_name
add_name_info env nodename servname q =
    if is_some q.response.nodename
    then q
    else if is_some q.response.servname
    then record q { response = record q.response { nodename = nodename } }
    else let found =
        service_list_query env.services none 0 q.request.protocol (pos q.request.port) in
      record q {
        response = record q.response { nodename = nodename; servname = first_name none found };
        lists = q.lists + 1;
      }

-- `netresolve_backend_set_secure`
unfoldable pub set_secure : Query → Query
set_secure q = record q { response = record q.response { security = Security.secure } }

-- `netresolve_backend_set_dns_answer`
unfoldable pub set_dns_answer : List ℕ → Query → Query
set_dns_answer answer q = record q { response = record q.response { dns_answer = some answer } }
