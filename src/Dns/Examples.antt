-- ===== src/Dns/Examples.antt =====
-- Runs of backends/dns.c: a service and its server over libunbound, an address over c-ares, and the
-- names of reverse look-ups.
use netresolve.Prelude.{
  ℕ, pos, ◌≡◌, ◌≢◌, refl, inl, Bool, true, false, Option, none, some, List, [], ◌∷◌, ◌++◌, CString,
  codes, get_elem?, arith,
}
use netresolve.Libc.{decimal}
use netresolve.Types.{State, Request, zero_request}
use netresolve.Types.Af
use netresolve.Query.{Call}
use netresolve.Output.{get_nodename}
use netresolve.Machine.Failover.{verdict}
use netresolve.Dns.{
  Lookup, Build, Rr, Packet, Library, Priv, asked, lookup_dns, lookup_srv, lookup_family,
  lookup_host,
}
use netresolve.Dns.Reverse.{reverse_name, reverse_bytes}
use netresolve.Dns.Reverse.RoundTrip.{IsReverse, reverse_name-IsReverse}
use netresolve.Dns.Answers.{
  without_dot, set_name, apply_address, apply_srv, apply_record, apply_records, rcode_of, check_ad,
  not_found, apply_rcode, apply_packet, apply_answer, secured, end_with, settle, check_pending,
  check,
}
use netresolve.Dns.Setup.{
  Session, read_settings, unbound_setting, new_state, opens, watched, opened, setup, ask_forward,
  ask_if, start_named, query_forward,
}
use netresolve.Dns.Starting.{forward}
use netresolve.Dns.Endings.{IsDue}
use netresolve.Dns.Unbound.{UbAnswer, ub_result, ubdns_callback, ub_answered, ub_dispatch}
use netresolve.Dns.Unbound.Settling.{query-IsDue}
use netresolve.Dns.Unbound.Trust.{IsDistrusted, markings, ub_dispatch-IsSuspect}
use netresolve.Dns.Ares.{
  FdUse, Channel, AresStatus, AresAnswer, watch_file_descriptors, unwatch_file_descriptors,
  start_channel, dispatch_all,
}
use netresolve.Dns.Ares.Settling.{IsConcluded, query-IsConcluded}
use netresolve.Dns.Ares.Watches.{additions, removals, unwatch-watch}
use netresolve.Dns.Avahi.{ResolverEvent, address_callback}
use netresolve.Dns.Avahi
use netresolve.Dns.Avahi.Failing.{address_callback-fails}

-- 10.2.0.192.in-addr.arpa.
reverse_inet :
    reverse_name Af.inet (192 ∷ 0 ∷ 2 ∷ 10 ∷ []) ≡ some (codes "10.2.0.192.in-addr.arpa.")
unfolding reverse_name reverse_bytes decimal
reverse_inet = refl

reverse_name-IsReverse_example :
    (name : CString) × (reverse_name Af.inet (192 ∷ 0 ∷ 2 ∷ 10 ∷ []) ≡ some name)
    × IsReverse Af.inet (192 ∷ 0 ∷ 2 ∷ 10 ∷ []) name
reverse_name-IsReverse_example =
    reverse_name-IsReverse Af.inet (192 ∷ 0 ∷ 2 ∷ 10 ∷ []) (omega arith) (inl (refl, refl))

-- The message 1 says that there is a service, the message 2 has an address, and no other can be read.
abbrev service_packet : Packet
service_packet = record {
  rcode = 0;
  question = pos 33;
  ad = true;
  answer = Rr.srv 10 5 80 (codes "h.") ∷ [];
}

abbrev address_packet : Packet
address_packet = record {
  rcode = 0;
  question = pos 1;
  ad = true;
  answer = Rr.a (192 ∷ 0 ∷ 2 ∷ 10 ∷ []) 300 ∷ [];
}

abbrev packet_of : List ℕ → Option Packet
packet_of [] = none
packet_of (b ∷ []) = some service_packet
packet_of (b ∷ c ∷ cs) = some address_packet

abbrev library : Build → Library
library build = record { build = build; refuses = λ l. false; parse = packet_of }

abbrev session : Session
session = record { created = true; configured = λ server. true; anchored = true; fd = 7 }

abbrev wanted : Request
wanted = record zero_request {
  nodename = some (codes "n");
  servname = some (codes "http");
  family = Af.inet;
  protocol = 6;
  dns_srv_lookup = true;
}

abbrev settings : List CString
settings = codes "trust" ∷ []

abbrev answer : Bool → List ℕ → UbAnswer
answer secure bytes = record {
  index = 0;
  status = pos 0;
  result = record { secure = secure; bogus = false; packet = bytes };
}

abbrev answers : List UbAnswer
answers = answer true (1 ∷ []) ∷ answer true (1 ∷ 2 ∷ []) ∷ []

abbrev begun : Build → Priv
begun build = query_forward (library build) session settings wanted

-- The address of the server has the port, the priority and the weight of the service.
service_found :
    (ub_dispatch (library Build.unbound) answers (begun Build.unbound)).calls
    ≡ Call.new_priv true
      ∷ Call.watch_add 7 0
      ∷ Call.add_name_info (some (codes "h")) none
      ∷ Call.add_path 2 (192 ∷ 0 ∷ 2 ∷ 10 ∷ []) (pos 0) 0 6 (pos 80) (pos 10) (pos 5) (pos 300)
      ∷ Call.set_secure
      ∷ Call.finished
      ∷ []
unfolding ub_dispatch ub_answered ubdns_callback ub_result query_forward start_named ask_if setup
    opened watched opens new_state read_settings unbound_setting ask_forward lookup_srv lookup_dns
    asked lookup_host lookup_family apply_answer apply_packet apply_rcode apply_records apply_record
    apply_srv apply_address set_name without_dot check_ad rcode_of not_found check check_pending
    settle end_with secured get_nodename
service_found = refl

unbound_asks : (begun Build.unbound).unanswered ≢ []
unfolding query_forward start_named ask_if setup opened watched opens new_state read_settings
    unbound_setting ask_forward lookup_srv lookup_dns asked get_nodename
unbound_asks e = cc

ares_asks : (begun Build.ares).unanswered ≢ []
unfolding query_forward start_named ask_if setup opened watched opens new_state read_settings
    unbound_setting ask_forward lookup_srv lookup_dns asked get_nodename
ares_asks e = cc

query-IsDue_example : IsDue (ub_dispatch (library Build.unbound) answers (begun Build.unbound))
query-IsDue_example =
    query-IsDue (library Build.unbound) {session = session} {settings = settings} {r = wanted}
      forward unbound_asks (λ l. refl) answers (refl, (refl, tt))

one_unanswered : (l : Lookup) × (get_elem? (begun Build.unbound).unanswered 0 ≡ some l)
unfolding query_forward start_named ask_if setup opened watched opens new_state read_settings
    unbound_setting ask_forward lookup_srv lookup_dns asked get_nodename
one_unanswered = (_, refl)

unmarked : markings (begun Build.unbound).calls ≡ []
unfolding query_forward start_named ask_if setup opened watched opens new_state read_settings
    unbound_setting ask_forward lookup_srv lookup_dns asked get_nodename
unmarked = refl

ub_dispatch-IsSuspect_example : IsDistrusted (
    ub_dispatch
      (library Build.unbound)
      (answer false (1 ∷ []) ∷ answer true (1 ∷ 2 ∷ []) ∷ [])
      (begun Build.unbound))
ub_dispatch-IsSuspect_example =
    ub_dispatch-IsSuspect (library Build.unbound) (answer false (1 ∷ []))
      (answer true (1 ∷ 2 ∷ []) ∷ []) (begun Build.unbound) one_unanswered.0 one_unanswered.1 refl
      (inl refl) unmarked

abbrev reading : FdUse
reading = record { readable = true; writable = false }

abbrev error_answer : AresAnswer
error_answer = record { index = 0; status = AresStatus.other; abuf = [] }

query-IsConcluded_example :
    IsConcluded
      (dispatch_all
        (library Build.ares)
        ((error_answer ∷ [], []) ∷ [])
        (start_channel true (reading ∷ []) 3 (begun Build.ares))).priv
query-IsConcluded_example =
    query-IsConcluded (library Build.ares) {session = session} {settings = settings} {r = wanted}
      forward ares_asks refl true (reading ∷ []) 3 (error_answer ∷ []) [] []

abbrev channel : Channel
channel = record { priv = begun Build.ares; fds = []; watches = []; next_watch = 3 }

unwatch-watch_example :
    (unwatch_file_descriptors (watch_file_descriptors (reading ∷ []) channel)).priv.calls
    ≡ (channel.priv.calls ++ additions 0 (reading ∷ [])) ++ removals 3 1
unwatch-watch_example = unwatch-watch (reading ∷ []) channel (refl, tt)

avahi_opens : (setup (library Build.avahi) session settings wanted).0 ≡ true
unfolding setup opened opens
avahi_opens = refl

address_callback-fails_example :
    verdict State.waiting
      (address_callback
        (ResolverEvent.found (codes "h"))
        (Avahi.query_reverse true (library Build.avahi) session settings wanted)).calls
    ≡ State.error
address_callback-fails_example =
    address_callback-fails (library Build.avahi) session settings wanted
      (ResolverEvent.found (codes "h")) avahi_opens
