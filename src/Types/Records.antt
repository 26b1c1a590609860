-- ===== src/Types/Records.antt =====
-- The structures of include/netresolve-private.h. An `int` that the code only ever sets to a
-- non-negative value is a ℕ, any other is a ℤ. A pointer to a string is an `Option CString`. A union
-- of addresses is the list of the bytes that were copied into it.
use netresolve.Prelude.{ℕ, ℤ, pos, Bool, false, Option, none, List, [], CString}
use netresolve.Types.Enums.{SocketState, RequestType, Security}

-- struct netresolve_request
pub record Request : Type 0 where
  pub type : RequestType
  pub nodename : Option CString
  pub family : ℕ
  pub servname : Option CString
  pub socktype : ℕ
  pub protocol : ℕ
  pub port : ℕ
  pub default_loopback : Bool
  pub dns_srv_lookup : Bool
  pub dns_search : Bool
  pub clamp_ttl : ℤ
  pub address : List ℕ
  pub ifindex : ℕ
  pub dns_name : Option CString
  pub dns_class : ℤ
  pub dns_type : ℤ
  pub request_timeout : ℤ
  pub result_timeout : ℤ

-- what `calloc` leaves in a request
abbrev pub zero_request : Request
zero_request = record {
  type = RequestType.forward;
  nodename = none;
  family = 0;
  servname = none;
  socktype = 0;
  protocol = 0;
  port = 0;
  default_loopback = false;
  dns_srv_lookup = false;
  dns_search = false;
  clamp_ttl = pos 0;
  address = [];
  ifindex = 0;
  dns_name = none;
  dns_class = pos 0;
  dns_type = pos 0;
  request_timeout = pos 0;
  result_timeout = pos 0;
}

-- `node` of struct netresolve_path
pub record Node : Type 0 where
  pub family : ℕ
  pub address : List ℕ
  pub ifindex : ℤ
  pub reachable : Bool

-- `service` of struct netresolve_path
pub record PathService : Type 0 where
  pub socktype : ℕ
  pub protocol : ℕ
  pub port : ℤ

-- `socket` of struct netresolve_path; a watch is named by its number
pub record PathSocket : Type 0 where
  pub state : SocketState
  pub watch : Option ℕ
  pub fd : ℤ

-- struct netresolve_path
pub record AddrPath : Type 0 where
  pub node : Node
  pub service : PathService
  pub priority : ℤ
  pub weight : ℤ
  pub ttl : ℤ
  pub socket : PathSocket

abbrev pub zero_socket : PathSocket
zero_socket = record { state = SocketState.none; watch = none; fd = pos 0 }

-- struct netresolve_response: `pathcount` is the length of `paths`, and the length of the DNS answer
-- that of its bytes
pub record Response : Type 0 where
  pub paths : List AddrPath
  pub nodename : Option CString
  pub servname : Option CString
  pub dns_answer : Option (List ℕ)
  pub security : Security

-- what `memset` to zero leaves in a response
abbrev pub zero_response : Response
zero_response = record {
  paths = [];
  nodename = none;
  servname = none;
  dns_answer = none;
  security = Security.insecure;
}
