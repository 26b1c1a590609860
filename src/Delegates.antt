-- ===== src/Delegates.antt =====
-- backends/libc.c and asyncns.c: the backends that ask the C library or libasyncns. What these return
-- is a parameter; a function of the backend is the calls that it makes on a request.
mod Examples
pub mod Settling
use netresolve.Prelude.{
  ℕ, ℤ, pos, Bool, true, false, Option, none, some, List, [], ◌∷◌, ◌++◌, CString, take, ◌==◌,
  if◌then◌else◌,
}
use netresolve.Types.{Request}
use netresolve.Types.Af
use netresolve.Query.{Call}
use netresolve.Output.{get_nodename, get_port}
use netresolve.Results.{AddrInfo, Status, apply_addrinfo}
use netresolve.Nss.{InfoHints, get_addrinfo_hints}

-- What getaddrinfo says: an error, or a list.
abbrev pub GetAddrInfo : Type 0
GetAddrInfo = Option CString → Option CString → InfoHints → Option (List AddrInfo)

pub libc_answer : (List ℕ → Bool) → Option (List AddrInfo) → List Call
libc_answer linklocal none = Call.failed ∷ []
libc_answer linklocal (some items) = apply_addrinfo linklocal Status.success items (pos 0)

-- `query_forward` of libc.c
pub libc_forward : GetAddrInfo → (List ℕ → Bool) → Request → List Call
libc_forward getaddrinfo linklocal r =
    libc_answer linklocal (getaddrinfo (get_nodename r) r.servname (get_addrinfo_hints r))

-- What `query_reverse` of libc.c hands to getnameinfo: the port is stored without htons, and the
-- length is that of struct sockaddr_in for each family.
pub record NameArgs : Type 0 where
  pub family : ℕ
  pub address : List ℕ
  pub port : ℕ
  pub length : ℕ

pub name_args : Request → Option NameArgs
name_args r =
    if r.family == Af.inet
    then some
        (record { family = Af.inet; address = take 4 r.address; port = get_port r; length = 16 })
    else if r.family == Af.inet6
    then some
        (record { family = Af.inet6; address = take 16 r.address; port = get_port r; length = 16 })
    else none

-- What getnameinfo says: an error, or the names.
abbrev pub GetNameInfo : Type 0
GetNameInfo = NameArgs → Option (CString × CString)

pub name_calls : Option (CString × CString) → List Call
name_calls none = Call.failed ∷ []
name_calls (some (nodename, servname)) =
    Call.add_name_info (some nodename) (some servname) ∷ Call.finished ∷ []

pub ask_name : GetNameInfo → Option NameArgs → List Call
ask_name getnameinfo none = Call.failed ∷ []
ask_name getnameinfo (some args) = name_calls (getnameinfo args)

-- `query_reverse` of libc.c
pub libc_reverse : GetNameInfo → Request → List Call
libc_reverse getnameinfo r = ask_name getnameinfo (name_args r)

-- `res_search` if the first argument says so, or else `res_query`: on the name, the class and the type,
-- an error or the answer.
abbrev pub ResQuery : Type 0
ResQuery = Bool → Option CString → ℤ → ℤ → Option (List ℕ)

unfoldable pub answer_calls : Option (List ℕ) → List Call
answer_calls none = Call.failed ∷ []
answer_calls (some answer) = Call.set_dns_answer answer ∷ Call.finished ∷ []

-- `query_dns` of libc.c
pub libc_dns : ResQuery → Request → List Call
libc_dns query r = answer_calls (query r.dns_search (get_nodename r) r.dns_class r.dns_type)

-- What libasyncns says at the start: an error of `asyncns_new`, one of `asyncns_getaddrinfo`, or the
-- descriptor of `asyncns_fd`.
pub data AsyncnsStart : Type 0 where
  no_session refused : AsyncnsStart
  waiting : ℕ → AsyncnsStart

-- `query_forward` of asyncns.c
pub asyncns_forward : AsyncnsStart → List Call
asyncns_forward AsyncnsStart.no_session = Call.new_priv true ∷ Call.failed ∷ []
asyncns_forward AsyncnsStart.refused = Call.new_priv true ∷ Call.failed ∷ []
asyncns_forward (AsyncnsStart.waiting fd) = Call.new_priv true ∷ Call.watch_add fd 0 ∷ []

-- `dispatch` of asyncns.c, on the status and the list of a query that is done, if there is one
pub asyncns_dispatch : (List ℕ → Bool) → Option (Status × List AddrInfo) → List Call
asyncns_dispatch linklocal none = []
asyncns_dispatch linklocal (some (status, items)) = apply_addrinfo linklocal status items (pos 0)
