-- ===== src/Delegates/Settling.antt =====
-- How the backends nss, libc and asyncns end a query, behind the answer of the library that they ask.
use netresolve.Prelude.{ℕ, pos, refl, inl, inr, Bool, Option, none, some, List, CString}
use netresolve.Types.{Request}
use netresolve.Results.{AddrInfo, Status}
use netresolve.Backends.Settling.{Settles}
use netresolve.Nss.{Handle}
use netresolve.Nss.Forward
use netresolve.Nss.Settling.{apply_addrinfo-Settles, query_forward-Settles}
use netresolve.Delegates.{
  GetAddrInfo, libc_answer, libc_forward, NameArgs, name_args, GetNameInfo, name_calls, ask_name,
  libc_reverse, ResQuery, answer_calls, libc_dns, asyncns_dispatch,
}

libc_answer-Settles :
    (linklocal : List ℕ → Bool) (answer : Option (List AddrInfo))
    → Settles (libc_answer linklocal answer)
unfolding libc_answer
libc_answer-Settles linklocal none = inr refl
libc_answer-Settles linklocal (some items) =
    apply_addrinfo-Settles linklocal Status.success items (pos 0)

name_calls-Settles : (names : Option (CString × CString)) → Settles (name_calls names)
unfolding name_calls
name_calls-Settles none = inr refl
name_calls-Settles (some (nodename, servname)) = inl refl

ask_name-Settles :
    (getnameinfo : GetNameInfo) (args : Option NameArgs) → Settles (ask_name getnameinfo args)
unfolding ask_name
ask_name-Settles getnameinfo none = inr refl
ask_name-Settles getnameinfo (some args) = name_calls-Settles (getnameinfo args)

answer_calls-Settles : (answer : Option (List ℕ)) → Settles (answer_calls answer)
unfolding answer_calls
answer_calls-Settles none = inr refl
answer_calls-Settles (some answer) = inl refl

-- Whatever the request is and whatever the dynamic loader, the functions of a plugin, the C library
-- and libasyncns say, each function of the backends nss and libc leaves its query resolved or in error
-- when it returns, and so does the handler of asyncns if a query of libasyncns is done.
pub delegates-Settle :
    (dlopen : CString → Option Handle) (linklocal : List ℕ → Bool) (settings : List CString)
    (getaddrinfo : GetAddrInfo) (getnameinfo : GetNameInfo) (query : ResQuery) (status : Status)
    (items : List AddrInfo) (r : Request)
    → Settles (Forward.query_forward dlopen linklocal settings r)
      × Settles (libc_forward getaddrinfo linklocal r)
      × Settles (libc_reverse getnameinfo r)
      × Settles (libc_dns query r)
      × Settles (asyncns_dispatch linklocal (some (status, items)))
unfolding libc_forward libc_reverse libc_dns asyncns_dispatch
delegates-Settle dlopen linklocal settings getaddrinfo getnameinfo query status items r = (
  query_forward-Settles dlopen linklocal settings r,
  libc_answer-Settles linklocal _,
  ask_name-Settles getnameinfo (name_args r),
  answer_calls-Settles _,
  apply_addrinfo-Settles linklocal status items (pos 0),
)
