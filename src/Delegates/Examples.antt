-- ===== src/Delegates/Examples.antt =====
-- The backends libc and asyncns at a request for an IPv6 address (backends/libc.c and asyncns.c).
use netresolve.Prelude.{
  ℕ, ◌≡◌, refl, Bool, true, false, Option, none, some, List, [], ◌∷◌, CString, codes,
}
use netresolve.Types.{Request, zero_request}
use netresolve.Types.Af
use netresolve.Query.{Call}
use netresolve.Results.{AddrInfo, Status}
use netresolve.Backends.Settling.{Settles}
use netresolve.Nss.Forward
use netresolve.Nss.{Handle}
use netresolve.Delegates.{
  GetAddrInfo, GetNameInfo, ResQuery, libc_forward, libc_reverse, libc_dns, name_args, ask_name,
  name_calls, asyncns_forward, asyncns_dispatch, AsyncnsStart,
}
use netresolve.Delegates.Settling.{delegates-Settle}

abbrev request : Request
request = record zero_request { nodename = some (codes "n"); family = Af.inet6 }

abbrev items : List AddrInfo
items =
    record {
      family = Af.inet;
      socktype = 1;
      protocol = 6;
      address = 192 ∷ 0 ∷ 2 ∷ 10 ∷ [];
      scope = 0;
      port = 80;
    }
    ∷ []

abbrev linklocal : List ℕ → Bool
linklocal address = false

abbrev find_info : GetAddrInfo
find_info _ _ _ = some items

-- As the C library does, this refuses an IPv6 address in a structure that is too short for one.
abbrev find_name : GetNameInfo
find_name _ = none

abbrev find_answer : ResQuery
find_answer search name cls type = some (1 ∷ [])

abbrev no_library : CString → Option Handle
no_library filename = none

delegates-Settle_example :
    Settles (Forward.query_forward no_library linklocal [] request)
    × Settles (libc_forward find_info linklocal request)
    × Settles (libc_reverse find_name request)
    × Settles (libc_dns find_answer request)
    × Settles (asyncns_dispatch linklocal (some (Status.success, items)))
delegates-Settle_example =
    delegates-Settle no_library linklocal [] find_info find_name find_answer Status.success items
      request

reverse_refused : libc_reverse find_name request ≡ Call.failed ∷ []
unfolding libc_reverse name_args ask_name name_calls
reverse_refused = refl

asyncns_waits :
    asyncns_forward (AsyncnsStart.waiting 4) ≡ Call.new_priv true ∷ Call.watch_add 4 0 ∷ []
unfolding asyncns_forward
asyncns_waits = refl
