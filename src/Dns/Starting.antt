-- ===== src/Dns/Starting.antt =====
-- How a query of backends/dns.c stands when it has been started.
use netresolve.Prelude.{
  if_both, ◌≡◌, ◌≢◌, refl, ◌∙◌, sym, Bool, true, false, Option, none, some, List, [], ◌∷◌, CString,
}
use netresolve.Types.{Request}
use netresolve.Query.{Call}
use netresolve.Dns.{Lookup, Build, Library, Priv, lookup_srv, lookup_name, lookup_address}
use netresolve.Dns.Setup.{
  Session, new_state, watched, opened, setup, ask_forward, ask_if, start_named, start_unnamed,
  query_forward, ask_reverse, query_reverse, ask_dns, query_dns,
}
use netresolve.Dns.Laws.{lookup_dns-keeps, lookup_host-keeps}
use netresolve.Dns.Endings.{endings-behind, IsRunning, IsDue, due, Counts, IsRunning-Laws}

-- The ways in which a query is started, with the state behind.
pub data HasStarted (lib : Library) (session : Session) (settings : List CString) (r : Request)
    : Priv → Type 0 where
  forward : HasStarted lib session settings r (query_forward lib session settings r)
  reverse : HasStarted lib session settings r (query_reverse lib session settings r)
  dns : HasStarted lib session settings r (query_dns lib session settings r)

-- nothing has been asked
abbrev IsFresh : Priv → Type 0
IsFresh p = (p.unanswered ≡ []) × IsRunning p

watched-IsFresh :
    (build : Build) (session : Session) (p : Priv) → IsFresh p → IsFresh (watched build session p)
unfolding watched
watched-IsFresh Build.unbound session p (e, r) = (
  e,
  record {
    counted = r.counted;
    unended = endings-behind p.calls (Call.watch_add session.fd 0 ∷ []) r.unended;
  },
)
watched-IsFresh Build.ares session p h = h
watched-IsFresh Build.avahi session p h = h

opened-IsFresh :
    (build : Build) (session : Session) (p : Priv) (ok : Bool)
    → IsFresh p
    → IsFresh (opened build session p ok).1
unfolding opened
opened-IsFresh build session p true h = watched-IsFresh build session p h
opened-IsFresh build session p false h = h

setup-IsFresh :
    (lib : Library) (session : Session) (settings : List CString) (r : Request)
    → IsFresh (setup lib session settings r).1
unfolding setup new_state
setup-IsFresh lib session settings r =
    opened-IsFresh lib.build session _ _ (refl, record { counted = refl; unended = refl })

module _ (lib : Library) (taken : Counts lib) where
  ask_forward-IsRunning : (p : Priv) → IsRunning p → IsRunning (ask_forward lib p)
  unfolding ask_forward lookup_srv
  ask_forward-IsRunning p r =
      if_both IsRunning p.request.dns_srv_lookup _ _
        (lookup_dns-keeps lib IsRunning (IsRunning-Laws lib taken) _ _ _ _ _
          (record { counted = r.counted; unended = r.unended }))
        (lookup_host-keeps lib IsRunning (IsRunning-Laws lib taken) p.srv p r)

  ask_dns-IsRunning : (p : Priv) → IsRunning p → IsRunning (ask_dns lib p)
  unfolding ask_dns
  ask_dns-IsRunning p r =
      lookup_dns-keeps lib IsRunning (IsRunning-Laws lib taken) _ _ _ _ _
        (record { counted = r.counted; unended = r.unended })

  lookup_name-IsRunning :
      (name : Option CString) (p : Priv) → IsRunning p → IsRunning (lookup_name lib name p)
  unfolding lookup_name
  lookup_name-IsRunning none p r = record { counted = r.counted; unended = r.unended }
  lookup_name-IsRunning (some name) p r =
      lookup_dns-keeps lib IsRunning (IsRunning-Laws lib taken) _ _ _ _ _ r

  ask_reverse-IsRunning : (p : Priv) → IsRunning p → IsRunning (ask_reverse lib p)
  unfolding ask_reverse lookup_address
  ask_reverse-IsRunning p r =
      lookup_name-IsRunning _ _ (record { counted = r.counted; unended = r.unended })

ask_if-IsRunning :
    (ask : Priv → Priv) (ok : Bool) (p : Priv)
    → ((p : Priv) → IsRunning p → IsRunning (ask p))
    → IsFresh p
    → (ask_if ask ok p).unanswered ≢ []
    → IsRunning (ask_if ask ok p)
unfolding ask_if
ask_if-IsRunning ask true p keeps (e, r) some_left = keeps p r
ask_if-IsRunning ask false p keeps (e, r) some_left = absurd (some_left e)

-- A query that has been started and that waits for an answer is running.
pub HasStarted-IsRunning :
    (lib : Library)
    → Counts lib
    → {session : Session} {settings : List CString} {r : Request} {p : Priv}
    → HasStarted lib session settings r p
    → p.unanswered ≢ []
    → IsRunning p
unfolding query_forward query_reverse query_dns start_named start_unnamed
HasStarted-IsRunning lib taken {session} {settings} {r} forward some_left =
    ask_if-IsRunning (ask_forward lib) _ _ (ask_forward-IsRunning lib taken)
      (setup-IsFresh lib session settings r) some_left
HasStarted-IsRunning lib taken {session} {settings} {r} reverse some_left =
    ask_if-IsRunning (ask_reverse lib) _ _ (ask_reverse-IsRunning lib taken)
      (setup-IsFresh lib session settings r) some_left
HasStarted-IsRunning lib taken {session} {settings} {r} dns some_left =
    ask_if-IsRunning (ask_dns lib) _ _ (ask_dns-IsRunning lib taken)
      (setup-IsFresh lib session settings r) some_left

nothing_due : (failed : Bool) (ls : List Lookup) → ls ≢ [] → due failed ls ≡ []
nothing_due failed [] h = absurd (h refl)
nothing_due failed (l ∷ ls) h = refl

-- With look-ups to wait for, a query that runs is as it should be.
pub IsRunning-IsDue : (p : Priv) → p.unanswered ≢ [] → IsRunning p → IsDue p
IsRunning-IsDue p some_left r = record {
  counted = r.counted;
  ended = r.unended ∙ sym (nothing_due p.failed p.unanswered some_left);
}
