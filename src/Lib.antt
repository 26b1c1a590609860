-- ===== src/Lib.antt =====
-- A model of netresolve, the non-blocking name resolution library, and of what makes it correct.
--
-- A query (include/netresolve-private.h) is made from a context and a request, and is driven through
-- its states by `netresolve_query_set_state`. In NETRESOLVE_STATE_SETUP the current backend, a plugin,
-- is called on the request; it calls back to add paths to the response, to add watches and timeouts,
-- and to say that it has finished or failed. If it fails, the next backend of the context is tried;
-- when a query is done, it goes on with the next mandatory backend. The event loop dispatches watches,
-- whose callbacks are the backends' and those of the query's own timeouts.
--
-- The files, with the code that they model:
-- - Types: the structures and enumerations of include/netresolve-private.h, and the constants of the
--   C library that the code compares with (Af, Sock, Ipproto).
-- - Options: lib/request.c, setting and reading the options of a request.
-- - Paths: the path list of a response, lib/backend.c (family_to_length, check_reachability, path_cmp,
--   and the search and insertion of add_path).
-- - Libc: strtok_r, strtol, snprintf of a number, on strings as lists of bytes.
-- - Service: lib/service.c, reading the services file by pieces, and in Service/Search the queries on the
--   list.
-- - Query: struct netresolve_query, the calls of a backend, and the record Env of everything that the
--   plugins and the system do: it is a parameter of the definitions, and the theorems hold for each.
-- - Watch: lib/event.c, the watch list of a query.
-- - Output: the rest of lib/backend.c that changes a response (netresolve_backend_add_path,
--   set_canonical_name, add_name_info, set_secure, set_dns_answer).
-- - Machine: lib/query.c. Machine has the timeouts, the release and the calls of a backend,
--   Machine/Entering `set_state` with what entering each state does, and Machine/Dispatch `dispatch` and
--   `free_query`. Machine/Steady has what a backend's calls leave alone, Machine/Failover/Search the order
--   of backends as a search, which Machine/Failover/Chain and Machine/Failover/Done are about,
--   Machine/Freeing the release of a query. Machine/Laws
--   follows a relation between queries through every step of the state machine, if it satisfies the
--   laws of the record Laws; Machine/Answers is an instance, for what a response holds.
-- - Parse: the parsers of lib/backend.c (netresolve_backend_parse_address, parse_path).
-- - Backends: backends/any.c, loopback.c, unix.c, numerichost.c and hostname.c.
-- - Results: lib/backend.c, applying the results of getaddrinfo, of name service plugins and of
--   gethostbyname (netresolve_backend_apply_addrinfo, apply_addrtuple, apply_hostent).
-- - Names: lib/string.c, the names of socket types and protocols.
-- - Context: lib/context.c, the backend string, plugins and environment variables, with getenv_bool,
--   getenv_int and getenv_family.
-- - Start: the construction of queries and the getters of lib/query.c, and the guard of
--   netresolve_query_gethostbyaddr of lib/compat.c. Start/Lives follows a query from its start on
--   through any sequence of dispatched watches.
-- - Sockets: lib/socket.c, connecting to the paths of a query and listening on them. Sockets has what is
--   done to one socket, Sockets/Connecting the attempts and the choice of a socket, Sockets/Handlers the
--   events, Sockets/Listening the other side and the release. Sockets/Advance says how connecting may
--   change the sockets, and Sockets/Ledger where their descriptors go; each follows this through every
--   function. Sockets/Events has the sequences of events.
-- - Compat: lib/compat.c, the results of a query in the forms of getaddrinfo and getnameinfo, and in
--   Compat/Entries in that of gethostbyname.
-- - Select and Epoll: lib/select.c and lib/epoll.c, the two event loops.
-- - Hosts: backends/hosts.c, the hosts file and the look-ups in it.
-- - Exec: backends/exec.c, the answer of a child process, line by line.
-- - TextOutput: lib/string.c, requests, paths and responses as text.
-- - Dns: backends/dns.c. Dns has the state and the look-ups, Dns/Reverse the names of reverse look-ups,
--   Dns/Answers what an answer does and how a query ends, Dns/Setup the settings and the three kinds of
--   queries, and Dns/Unbound, Dns/Ares and Dns/Avahi the callbacks of the three builds. Dns/Laws says
--   what an answer may do to a state, as the laws of a predicate, of which Dns/Endings and
--   Dns/Unbound/Trust are instances; Dns/Starting follows a query up to its first questions.
-- - Nss: backends/nss.c, with the name of the plugin in Nss/Loading and the look-up in Nss/Forward.
-- - Delegates: backends/libc.c and asyncns.c.
-- - Asyncns, Replaced and Nsswitch: compat/asyncns.c, compat/libc.c and compat/nsswitch.c, which have the
--   interfaces of libasyncns, the C library and its plugins. Asyncns/Rings has the linked blocks,
--   Replaced/Layout, Nsswitch/Packing and Nsswitch/ByAddress the buffers.
-- A file Examples beside them has concrete runs.
--
-- C code that changes a query is a function on the record Query. A pointer is an Option; a watch is
-- named by a number; the array of backends is the list from the current one on. Where C would abort or
-- be undefined, a fault is recorded in the query, or the result is none. The recursion of `set_state`
-- through failing backends is recursion on the backends left. The loop over the pieces of the services
-- file is recursion on the list of the sizes that `read` returns; reading a line of aliases has the
-- length of the line as fuel, of which each alias uses at least one byte; a decimal number has fuel
-- for eleven digits, one more than an int has. pickup_connected_socket and enable_sockets call each
-- other with one more than the number of paths as fuel: every such call is behind an attempt to connect
-- to a path that had not been tried. The loop of backends/exec.c over lines has one more than the bytes
-- in its buffer as fuel, and so has that of backends/hosts.c; its names have the length of the line. The
-- loops of compat/asyncns.c have one more than the number of blocks.
--
-- The libraries that backends call (libunbound, c-ares, Avahi, ldns, libasyncns, name service plugins,
-- the C library) are parameters: what they return, and which of the questions they take.
--
-- Not modelled: the blocking mode, logging, the functions of compat/ that only pass their arguments on,
-- and the tools. The user's callback is taken to leave the query alone, and memory allocation to succeed.
pub mod Prelude
pub mod Types
pub mod Options
pub mod Paths
pub mod Libc
pub mod Service
pub mod Query
pub mod Watch
pub mod Output
pub mod Machine
pub mod Parse
pub mod Backends
pub mod Results
pub mod Sockets
pub mod Compat
pub mod Select
pub mod Dns
pub mod Nss
pub mod Delegates
pub mod Asyncns
pub mod Replaced
pub mod Nsswitch
pub mod Hosts
pub mod Exec
pub mod Epoll
pub mod TextOutput
pub mod Names
pub mod Context
pub mod Start
