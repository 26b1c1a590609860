-- ===== src/Types/Enums.antt =====
-- The enumerations of include/netresolve-private.h. Their constructors are written behind the type.

-- enum netresolve_state
pub data State : Type 0 where
  none setup waiting waiting_more resolved done error failed : State

-- enum netresolve_socket_state
pub data SocketState : Type 0 where
  none scheduled ready done : SocketState

-- enum netresolve_request_type
pub data RequestType : Type 0 where
  forward reverse dns : RequestType

-- enum netresolve_security
pub data Security : Type 0 where
  insecure secure : Security
