-- ===== src/Dns/Avahi/Failing.antt =====
-- How backends/dns.c over Avahi ends a reverse query.
use netresolve.Prelude.{pos, ◌≡◌, refl, sym, ap, Bool, true, false, ◌&&◌, List, [], ◌∷◌, CString}
use mathlib.Core.Path.{subst}
use netresolve.Types.{State, Request}
use netresolve.Query.{Call}
use netresolve.Machine.Failover.{verdict, verdict-append}
use netresolve.Dns.{Build, Library, Priv, call, increment, decrement}
use netresolve.Dns.Setup.{Session, new_state, watched, opened, setup, ask_if, start_unnamed}
use netresolve.Dns.Answers.{secured, end_with, settle, check_pending, check}
use netresolve.Dns.Avahi.{
  ResolverEvent, resolver_event, address_callback, lookup_address, query_reverse,
}

-- a call of `netresolve_backend_failed` behind all others
failed_last : (s : State) (p : Priv) → verdict s (call Call.failed p).calls ≡ State.error
failed_last s p = verdict-append s p.calls (Call.failed ∷ [])

-- nothing is pending and there is no answer
check-fails :
    (s : State) (p : Priv)
    → p.pending ≡ pos 0
    → p.answered ≡ false
    → verdict s (check Build.avahi p).calls ≡ State.error
unfolding check check_pending settle end_with
check-fails s p none_left unanswered =
    subst (λ n. verdict s (check_pending Build.avahi n p).calls ≡ State.error) (sym none_left)
      (subst (λ b. verdict s (end_with b (secured (p.answered && p.secure) p)).calls ≡ State.error)
        (sym unanswered) (failed_last s (secured (p.answered && p.secure) p)))

resolver_event-fails :
    (s : State) (event : ResolverEvent) (p : Priv)
    → p.pending ≡ pos 0
    → p.answered ≡ false
    → verdict s (resolver_event event p).calls ≡ State.error
unfolding resolver_event
resolver_event-fails s (ResolverEvent.found name) p none_left unanswered =
    check-fails s _ none_left unanswered
resolver_event-fails s ResolverEvent.failure p none_left unanswered =
    check-fails s _ none_left unanswered
resolver_event-fails s ResolverEvent.other p none_left unanswered = failed_last s p

watched-fresh :
    (build : Build) (session : Session) (p : Priv)
    → ((watched build session p).pending ≡ p.pending)
      × ((watched build session p).answered ≡ p.answered)
unfolding watched
watched-fresh Build.unbound session p = (refl, refl)
watched-fresh Build.ares session p = (refl, refl)
watched-fresh Build.avahi session p = (refl, refl)

opened-fresh :
    (build : Build) (session : Session) (p : Priv) (ok : Bool)
    → ((opened build session p ok).1.pending ≡ p.pending)
      × ((opened build session p ok).1.answered ≡ p.answered)
unfolding opened
opened-fresh build session p true = watched-fresh build session p
opened-fresh build session p false = (refl, refl)

asked-fails :
    (event : ResolverEvent) (p : Priv)
    → p.pending ≡ pos 0
    → p.answered ≡ false
    → verdict State.waiting (address_callback event (ask_if (lookup_address true) true p)).calls
      ≡ State.error
unfolding address_callback ask_if lookup_address
asked-fails event p none_left unanswered =
    resolver_event-fails State.waiting event _ (ap (λ n. decrement (increment n)) none_left)
      unanswered

-- Whatever Avahi says on the address, even if it finds a name, a reverse query over Avahi that it
-- takes ends in error.
pub address_callback-fails :
    (lib : Library) (session : Session) (settings : List CString) (r : Request)
    (event : ResolverEvent)
    → (setup lib session settings r).0 ≡ true
    → verdict State.waiting
        (address_callback event (query_reverse true lib session settings r)).calls
      ≡ State.error
unfolding query_reverse start_unnamed setup new_state
address_callback-fails lib session settings r event ok =
    subst
      (λ b.
        verdict State.waiting
          (address_callback event
            (ask_if (lookup_address true) b (setup lib session settings r).1)).calls
        ≡ State.error)
      (sym ok)
      (asked-fails event (setup lib session settings r).1 (opened-fresh lib.build session _ _).0
        (opened-fresh lib.build session _ _).1)
