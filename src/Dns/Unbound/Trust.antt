-- ===== src/Dns/Unbound/Trust.antt =====
-- How backends/dns.c over libunbound marks a response as secure.
use netresolve.Prelude.{
  if_both, ℤ, pos, negsuc, zero, suc, ◌≡◌, refl, ◌∙◌, ap, ◌⊎◌, inl, inr, Bool, true, false, ◌&&◌,
  Option, none, some, List, [], ◌∷◌, ◌++◌, get_elem?, is_nonzero, arith,
}
use netresolve.Query.{Call}
use netresolve.Dns.{Server, Lookup, Build, Library, Priv, increment, asked}
use netresolve.Dns.Answers.{secured, end_with, succeeded, settle, check_pending, check}
use netresolve.Dns.Laws.{IsAdding, Laws, apply_answer-keeps}
use netresolve.Dns.Unbound.{UbResult, UbAnswer, ub_result, ubdns_callback, ub_answered, ub_dispatch}

-- The calls that mark the response as secure, of those that a backend made.
abbrev pub markings : List Call → List Call
markings [] = []
markings (Call.set_secure ∷ cs) = Call.set_secure ∷ markings cs
markings (_ ∷ cs) = markings cs

markings-append : (cs ds : List Call) → markings (cs ++ ds) ≡ markings cs ++ markings ds
markings-append [] ds = refl
markings-append (Call.set_secure ∷ cs) ds = ap (λ xs. Call.set_secure ∷ xs) (markings-append cs ds)
markings-append (_ ∷ cs) ds = markings-append cs ds

markings-behind : (cs ds : List Call) → markings cs ≡ [] → markings (cs ++ ds) ≡ markings ds
markings-behind cs ds e = markings-append cs ds ∙ ap (λ xs. xs ++ markings ds) e

adding_alone : (c : Call) → IsAdding c → markings (c ∷ []) ≡ []
adding_alone Call.set_secure h = elim h [ ]
adding_alone _ h = refl

-- The response will not be marked as secure any more.
pub record IsDistrusted (p : Priv) : Type 0 where
  pub insecure : p.secure ≡ false
  pub unmarked : markings p.calls ≡ []

asked-IsDistrusted :
    (build : Build) (l : Lookup) (refused : Bool) (p : Priv)
    → IsDistrusted p
    → IsDistrusted (asked build l refused (record p { pending = increment p.pending }))
unfolding asked
asked-IsDistrusted build l false p d = record { insecure = d.insecure; unmarked = d.unmarked }
asked-IsDistrusted Build.ares l true p d = record { insecure = d.insecure; unmarked = d.unmarked }
asked-IsDistrusted Build.unbound l true p d = record {
  insecure = d.insecure;
  unmarked = d.unmarked;
}
asked-IsDistrusted Build.avahi l true p d = record {
  insecure = d.insecure;
  unmarked = markings-behind p.calls (Call.failed ∷ []) d.unmarked;
}

IsDistrusted-Laws : (lib : Library) → Laws lib IsDistrusted
IsDistrusted-Laws lib = record {
  add = λ c p h d. record {
    insecure = d.insecure;
    unmarked = markings-behind p.calls (c ∷ []) d.unmarked ∙ adding_alone c h;
  };
  answer = λ p d. record { insecure = d.insecure; unmarked = d.unmarked };
  fail = λ p d. record { insecure = d.insecure; unmarked = d.unmarked };
  distrust = λ p d. record { insecure = refl; unmarked = d.unmarked };
  extend = λ servers p d. record { insecure = d.insecure; unmarked = d.unmarked };
  abort = λ p d. record { insecure = d.insecure; unmarked = d.unmarked };
  ask = λ l p d. asked-IsDistrusted lib.build l (lib.refuses l) p d;
}

end_with-IsDistrusted : (ok : Bool) (p : Priv) → IsDistrusted p → IsDistrusted (end_with ok p)
unfolding end_with
end_with-IsDistrusted true p d = record {
  insecure = d.insecure;
  unmarked = markings-behind p.calls (Call.finished ∷ []) d.unmarked;
}
end_with-IsDistrusted false p d = record {
  insecure = d.insecure;
  unmarked = markings-behind p.calls (Call.failed ∷ []) d.unmarked;
}

and_false : (a b : Bool) → b ≡ false → (a && b) ≡ false
and_false a b e = ground arith

settle-IsDistrusted : (build : Build) (p : Priv) → IsDistrusted p → IsDistrusted (settle build p)
unfolding settle secured
settle-IsDistrusted build p d =
    end_with-IsDistrusted (succeeded build p) _ (rw (and_false p.answered p.secure d.insecure) d)

check_pending-IsDistrusted :
    (build : Build) (n : ℤ) (p : Priv) → IsDistrusted p → IsDistrusted (check_pending build n p)
unfolding check_pending
check_pending-IsDistrusted build (negsuc n) p d = record {
  insecure = d.insecure;
  unmarked = d.unmarked;
}
check_pending-IsDistrusted build (pos (suc n)) p d = d
check_pending-IsDistrusted build (pos zero) p d = settle-IsDistrusted build p d

check-IsDistrusted : (build : Build) (p : Priv) → IsDistrusted p → IsDistrusted (check build p)
unfolding check
check-IsDistrusted build p d = check_pending-IsDistrusted build p.pending p d

-- an answer that the library does not vouch for
abbrev pub IsSuspect : UbResult → Type 0
IsSuspect r = (r.secure ≡ false) ⊎ (r.bogus ≡ true)

ub_result-IsDistrusted :
    (lib : Library) (server : Server) (r : UbResult) (p : Priv)
    → IsDistrusted p
    → IsDistrusted (ub_result lib server r p)
unfolding ub_result
ub_result-IsDistrusted lib server r p d =
    let laws = IsDistrusted-Laws lib in
    let kept =
      if_both IsDistrusted r.secure p (record p { secure = false }) d (laws.distrust p d) in
    if_both IsDistrusted r.bogus _ _ (laws.fail _ (laws.distrust _ kept))
      (apply_answer-keeps lib IsDistrusted laws server r.packet _ kept)

-- An answer that the library does not vouch for is enough.
ub_result-IsSuspect :
    (lib : Library) (server : Server) (r : UbResult) (p : Priv)
    → IsSuspect r
    → markings p.calls ≡ []
    → IsDistrusted (ub_result lib server r p)
unfolding ub_result
ub_result-IsSuspect lib server r p (inl e) unmarked =
    let laws = IsDistrusted-Laws lib in
    let kept : IsDistrusted (record p { secure = false }) = record {
      insecure = refl;
      unmarked = unmarked;
    } in
    rw e (
      if_both IsDistrusted r.bogus _ _ (laws.fail _ (laws.distrust _ kept))
        (apply_answer-keeps lib IsDistrusted laws server r.packet _ kept))
ub_result-IsSuspect lib server r p (inr e) unmarked = rw e (record {
  insecure = refl;
  unmarked =
      if_both (λ (q : Priv). markings q.calls ≡ []) r.secure p (record p { secure = false })
        unmarked unmarked;
})

ub_answered-IsDistrusted :
    (lib : Library) (a : UbAnswer) (asked : Option Lookup) (p : Priv)
    → IsDistrusted p
    → IsDistrusted (ub_answered lib a asked p)
unfolding ub_answered ubdns_callback
ub_answered-IsDistrusted lib a none p d = d
ub_answered-IsDistrusted lib a (some l) p d =
    if_both IsDistrusted (is_nonzero a.status) _ _
      (record { insecure = d.insecure; unmarked = d.unmarked })
      (check-IsDistrusted Build.unbound _ (
        ub_result-IsDistrusted lib l.server a.result _
          (record { insecure = d.insecure; unmarked = d.unmarked })))

ub_dispatch-IsDistrusted :
    (lib : Library) (answers : List UbAnswer) (p : Priv)
    → IsDistrusted p
    → IsDistrusted (ub_dispatch lib answers p)
unfolding ub_dispatch
ub_dispatch-IsDistrusted lib [] p d = d
ub_dispatch-IsDistrusted lib (a ∷ answers) p d =
    ub_dispatch-IsDistrusted lib answers _
      (ub_answered-IsDistrusted lib a (get_elem? p.unanswered a.index) p d)

-- If a query over libunbound has not been marked as secure and the next answer, to a look-up that has
-- none yet and with no error as its status, is bogus or not secure, then neither this answer nor any
-- that come later mark it as secure, whatever they say, and the flag stays off.
pub ub_dispatch-IsSuspect :
    (lib : Library) (a : UbAnswer) (answers : List UbAnswer) (p : Priv) (l : Lookup)
    → get_elem? p.unanswered a.index ≡ some l
    → a.status ≡ pos 0
    → IsSuspect a.result
    → markings p.calls ≡ []
    → IsDistrusted (ub_dispatch lib (a ∷ answers) p)
unfolding ub_dispatch ub_answered ubdns_callback
ub_dispatch-IsSuspect lib a answers p l e fine suspect unmarked =
    ub_dispatch-IsDistrusted lib answers _ (
      rw e (
        rw fine (
          check-IsDistrusted Build.unbound _
            (ub_result-IsSuspect lib l.server a.result _ suspect unmarked))))
