-- ===== src/Dns/Avahi.antt =====
-- backends/dns.c over the Avahi client: the watches and timeouts of its poll interface, and its
-- callbacks.
pub mod Failing
use netresolve.Prelude.{
  ℕ, ℤ, pos, suc, ◌*◌, Bool, true, false, not, Option, none, some, List, [], ◌∷◌, ◌++◌, CString,
  ◌==◌, eq_ℤ, if◌then◌else◌,
}
use netresolve.Types.{Request}
use netresolve.Query.{Call}
use netresolve.Dns.{
  Server, Lookup, Build, Rr, Library, Priv, type_a, type_aaaa, call, aborted, increment, decrement,
}
use netresolve.Dns.Setup.{Session, setup, start_unnamed}
use netresolve.Dns.Answers.{apply_record, check}

-- struct AvahiWatch, without the pointers that it hands on
pub record AvahiWatch : Type 0 where
  pub watch : Option ℕ
  pub fd : ℕ

abbrev removal : Option ℕ → List Call
removal none = []
removal (some watch) = Call.watch_remove watch ∷ []

-- `watch_update`; `next` is the number of the next watch, and the number behind a descriptor the
-- event, which is handed on as it is
unfoldable pub watch_update : ℕ → ℕ → AvahiWatch → AvahiWatch × List Call
watch_update next event w =
    if event == 0
    then (record w { watch = none }, removal w.watch)
    else (record w { watch = some next }, removal w.watch ++ Call.watch_add w.fd event ∷ [])

-- `watch_new`
unfoldable pub watch_new : ℕ → ℕ → ℕ → AvahiWatch × List Call
watch_new next fd event = watch_update next event (record { watch = none; fd = fd })

-- `watch_free`, the calls
unfoldable pub watch_free : AvahiWatch → List Call
watch_free w = (watch_update 0 0 w).1

-- struct AvahiTimeout, without the pointers that it hands on
pub record AvahiTimeout : Type 0 where
  pub timeout : Option ℕ

-- The calls of `netresolve_timeout_add` and `netresolve_timeout_remove`.
pub data TimeoutCall : Type 0 where
  add : ℕ → ℕ → TimeoutCall
  remove : ℕ → TimeoutCall

abbrev timeout_removal : Option ℕ → List TimeoutCall
timeout_removal none = []
timeout_removal (some timeout) = TimeoutCall.remove timeout ∷ []

-- `timeout_update`, with the seconds and microseconds, if there are any
unfoldable pub timeout_update : ℕ → Option (ℕ × ℕ) → AvahiTimeout → AvahiTimeout × List TimeoutCall
timeout_update next none t = (record { timeout = none }, timeout_removal t.timeout)
timeout_update next (some (sec, usec)) t = (
  record { timeout = some next },
  timeout_removal t.timeout ++ TimeoutCall.add sec (usec * 1000) ∷ [],
)

-- `timeout_new`
unfoldable pub timeout_new : ℕ → Option (ℕ × ℕ) → AvahiTimeout × List TimeoutCall
timeout_new next tv = timeout_update next tv (record { timeout = none })

-- `timeout_free`, the calls
unfoldable pub timeout_free : AvahiTimeout → List TimeoutCall
timeout_free t = (timeout_update 0 none t).1

-- `client_callback`, by whether the client has failed
unfoldable pub client_callback : Bool → Priv → Priv
client_callback true p = call Call.failed p
client_callback false p = p

-- AvahiBrowserEvent, with what the code reads of the record: its type and its data.
pub data BrowserEvent : Type 0 where
  new : ℤ → List ℕ → BrowserEvent
  all_for_now : Bool → BrowserEvent
  cache_exhausted : Bool → BrowserEvent
  failure : BrowserEvent
  other : BrowserEvent

-- the record that `record_callback` makes of an address; `ttl` is what ldns puts into a new record
unfoldable pub address_record : ℕ → ℤ → List ℕ → Option Rr
address_record ttl type rdata =
    if eq_ℤ type type_a
    then some (Rr.a rdata ttl)
    else if eq_ℤ type type_aaaa
    then some (Rr.aaaa rdata ttl)
    else none

unfoldable pub browser_new : Library → Server → Option Rr → Priv → Priv
browser_new lib server none p = p
browser_new lib server (some rr) p = check Build.avahi (apply_record lib server rr p)

abbrev abort_if : Bool → Priv → Priv
abort_if b p = if b then aborted p else p

-- `record_callback`; the truth value of an event without a record says whether it has data
unfoldable pub record_callback : Library → ℕ → Server → BrowserEvent → Priv → Priv
record_callback lib ttl server (BrowserEvent.new type rdata) p =
    browser_new lib server (address_record ttl type rdata) p
record_callback lib ttl server (BrowserEvent.all_for_now given) p =
    check Build.avahi (abort_if given (record p { pending = decrement p.pending }))
record_callback lib ttl server (BrowserEvent.cache_exhausted given) p =
    check Build.avahi (abort_if given p)
record_callback lib ttl server BrowserEvent.failure p = check Build.avahi (call Call.failed p)
record_callback lib ttl server BrowserEvent.other p = call Call.failed p

-- AvahiResolverEvent, with the name that was found
pub data ResolverEvent : Type 0 where
  found : CString → ResolverEvent
  failure : ResolverEvent
  other : ResolverEvent

-- `address_callback` behind the decrement
pub resolver_event : ResolverEvent → Priv → Priv
resolver_event (ResolverEvent.found name) p =
    check Build.avahi (call (Call.add_name_info (some name) none) p)
resolver_event ResolverEvent.failure p = check Build.avahi (call Call.failed p)
resolver_event ResolverEvent.other p = call Call.failed p

-- `address_callback`
pub address_callback : ResolverEvent → Priv → Priv
address_callback event p = resolver_event event (record p { pending = decrement p.pending })

-- `lookup_address` of Avahi's build, by whether Avahi takes the question
unfoldable pub lookup_address : Bool → Priv → Priv
lookup_address given p =
    let p' = record p { pending = increment p.pending } in if given then p' else call Call.failed p'

-- `query_reverse` of Avahi's build, which stores the address for Avahi alone
unfoldable pub query_reverse : Bool → Library → Session → List CString → Request → Priv
query_reverse given lib session settings r =
    start_unnamed (lookup_address given) (setup lib session settings r)
