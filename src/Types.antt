-- ===== src/Types.antt =====
-- The data that the library's parts share: include/netresolve.h and include/netresolve-private.h.
pub mod Af
pub mod Sock
pub mod Ipproto
mod Enums
mod Records
pub use Enums.{State, SocketState, RequestType, Security}
pub use Records.*
