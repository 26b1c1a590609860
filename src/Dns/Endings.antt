-- ===== src/Dns/Endings.antt =====
-- How a query of backends/dns.c stands: the count of its look-ups, and the calls that end it.
use netresolve.Prelude.{
  ℕ, pos, zero, suc, ◌≡◌, ◌∙◌, ap, refl, sym, ◌⊎◌, inl, inr, Bool, true, false, not, ◌&&◌, none,
  some, List, [], ◌∷◌, ◌++◌, length, get_elem?,
}
use mathlib.Core.Path.{subst}
use netresolve.Query.{Call}
use netresolve.Dns.{Lookup, Build, Library, Priv, increment, decrement, remove, asked}
use netresolve.Dns.Answers.{succeeded, secured, end_with, settle, check_pending, check}
use netresolve.Dns.Laws.{IsAdding, Laws}

-- The calls that end a query, of those that a backend made.
abbrev pub endings : List Call → List Call
endings [] = []
endings (Call.finished ∷ cs) = Call.finished ∷ endings cs
endings (Call.failed ∷ cs) = Call.failed ∷ endings cs
endings (_ ∷ cs) = endings cs

pub endings-append : (cs ds : List Call) → endings (cs ++ ds) ≡ endings cs ++ endings ds
endings-append [] ds = refl
endings-append (Call.finished ∷ cs) ds = ap (λ xs. Call.finished ∷ xs) (endings-append cs ds)
endings-append (Call.failed ∷ cs) ds = ap (λ xs. Call.failed ∷ xs) (endings-append cs ds)
endings-append (_ ∷ cs) ds = endings-append cs ds

-- The counter is the number of the look-ups without an answer, and nothing has ended the query.
pub record IsRunning (p : Priv) : Type 0 where
  pub counted : p.pending ≡ pos (length p.unanswered)
  pub unended : endings p.calls ≡ []

-- The call that ends a query, by whether something has failed.
abbrev pub ending : Bool → Call
ending true = Call.failed
ending false = Call.finished

-- The calls that should have ended the query: one, if there are no look-ups without an answer.
abbrev pub due : Bool → List Lookup → List Call
due failed [] = ending failed ∷ []
due failed (l ∷ ls) = []

pub record IsDue (p : Priv) : Type 0 where
  pub counted : p.pending ≡ pos (length p.unanswered)
  pub ended : endings p.calls ≡ due p.failed p.unanswered

-- a call that adds something ends nothing
adding_alone : (c : Call) → IsAdding c → endings (c ∷ []) ≡ []
adding_alone (Call.add_path f a i s t o r w l) h = refl
adding_alone (Call.add_name_info n s) h = refl
adding_alone (Call.set_dns_answer a) h = refl
adding_alone (Call.set_canonical_name n) h = elim h [ ]
adding_alone Call.set_secure h = elim h [ ]
adding_alone (Call.new_priv b) h = elim h [ ]
adding_alone (Call.watch_add fd n) h = elim h [ ]
adding_alone (Call.watch_remove n) h = elim h [ ]
adding_alone (Call.timeout_add n) h = elim h [ ]
adding_alone Call.finished h = elim h [ ]
adding_alone Call.failed h = elim h [ ]

-- calls behind those that ended nothing
pub endings-behind : (cs ds : List Call) → endings cs ≡ [] → endings (cs ++ ds) ≡ endings ds
endings-behind cs ds e = endings-append cs ds ∙ ap (λ xs. xs ++ endings ds) e

length-snoc : (ls : List Lookup) (l : Lookup) → length (ls ++ l ∷ []) ≡ suc (length ls)
length-snoc [] l = refl
length-snoc (m ∷ ls) l = ap suc (length-snoc ls l)

asked-IsRunning :
    (build : Build) (l : Lookup) (refused : Bool) (p : Priv)
    → (build ≡ Build.ares) ⊎ (refused ≡ false)
    → IsRunning p
    → IsRunning (asked build l refused (record p { pending = increment p.pending }))
unfolding asked
asked-IsRunning build l false p h r = record {
  counted = ap increment r.counted ∙ ap pos (sym (length-snoc p.unanswered l));
  unended = r.unended;
}
asked-IsRunning Build.ares l true p h r = record {
  counted = ap (λ n. decrement (increment n)) r.counted;
  unended = r.unended;
}
asked-IsRunning Build.unbound l true p (inl e) r = cc
asked-IsRunning Build.avahi l true p (inl e) r = cc
asked-IsRunning Build.unbound l true p (inr e) r = cc
asked-IsRunning Build.avahi l true p (inr e) r = cc

-- No question is lost: it is taken, or the callback says at once that it has failed.
abbrev pub Counts : Library → Type 0
Counts lib = (l : Lookup) → (lib.build ≡ Build.ares) ⊎ (lib.refuses l ≡ false)

pub IsRunning-Laws : (lib : Library) → Counts lib → Laws lib IsRunning
IsRunning-Laws lib taken = record {
  add = λ c p h r. record {
    counted = r.counted;
    unended = endings-behind p.calls (c ∷ []) r.unended ∙ adding_alone c h;
  };
  answer = λ p r. record { counted = r.counted; unended = r.unended };
  fail = λ p r. record { counted = r.counted; unended = r.unended };
  distrust = λ p r. record { counted = r.counted; unended = r.unended };
  extend = λ servers p r. record { counted = r.counted; unended = r.unended };
  abort = λ p r. record { counted = r.counted; unended = r.unended };
  ask = λ l p r. asked-IsRunning lib.build l (lib.refuses l) p (taken l) r;
}

end_with-ended :
    (ok : Bool) (p : Priv)
    → endings p.calls ≡ []
    → endings (end_with ok p).calls ≡ ending (not ok) ∷ []
unfolding end_with
end_with-ended true p e = endings-behind p.calls (Call.finished ∷ []) e
end_with-ended false p e = endings-behind p.calls (Call.failed ∷ []) e

secured-unended : (b : Bool) (p : Priv) → endings p.calls ≡ [] → endings (secured b p).calls ≡ []
unfolding secured
secured-unended true p e = endings-behind p.calls (Call.set_secure ∷ []) e
secured-unended false p e = e

-- `settle` does no more than make calls
pub end_with-rest :
    (ok b : Bool) (p : Priv)
    → ((end_with ok (secured b p)).pending ≡ p.pending)
      × ((end_with ok (secured b p)).unanswered ≡ p.unanswered)
      × ((end_with ok (secured b p)).failed ≡ p.failed)
unfolding end_with secured
end_with-rest true true p = (refl, refl, refl)
end_with-rest true false p = (refl, refl, refl)
end_with-rest false true p = (refl, refl, refl)
end_with-rest false false p = (refl, refl, refl)

-- The builds in which a query succeeds unless something has failed.
pub data IsQuerying : Build → Type 0 where
  unbound : IsQuerying Build.unbound
  ares : IsQuerying Build.ares

pub not-not : (b : Bool) → not (not b) ≡ b
not-not true = refl
not-not false = refl

settle-ended :
    {build : Build} (p : Priv)
    → IsQuerying build
    → endings p.calls ≡ []
    → endings (settle build p).calls ≡ ending p.failed ∷ []
unfolding settle
settle-ended p unbound e =
    end_with-ended (not p.failed) _ (secured-unended _ p e)
    ∙ ap (λ b. ending b ∷ []) (not-not p.failed)
settle-ended p ares e =
    end_with-ended (not p.failed) _ (secured-unended _ p e)
    ∙ ap (λ b. ending b ∷ []) (not-not p.failed)

check_pending-IsDue :
    {build : Build} (ls : List Lookup) (p : Priv)
    → IsQuerying build
    → p.unanswered ≡ ls
    → IsRunning p
    → IsDue (check_pending build (pos (length ls)) p)
unfolding check_pending settle
check_pending-IsDue {build} [] p q e r =
    let (same_pending, same_unanswered, same_failed) =
      end_with-rest (succeeded build p) (p.answered && p.secure) p in
    record {
      counted = same_pending ∙ r.counted ∙ ap (λ ls. pos (length ls)) (sym same_unanswered);
      ended =
          settle-ended p q r.unended
          ∙ ap (λ b. ending b ∷ []) (sym same_failed)
          ∙ ap (λ ls. due (settle build p).failed ls) (sym (same_unanswered ∙ e));
    }
check_pending-IsDue (l ∷ ls) p q e r = record {
  counted = r.counted;
  ended = r.unended ∙ ap (λ us. due p.failed us) (sym e);
}

-- `check` ends a query just if it is time.
pub check-IsDue :
    {build : Build} (p : Priv) → IsQuerying build → IsRunning p → IsDue (check build p)
unfolding check
check-IsDue {build} p q r =
    subst (λ n. IsDue (check_pending build n p)) (sym r.counted)
      (check_pending-IsDue p.unanswered p q refl r)

pub some_ne_none : {l : Lookup} → none ≡ some l → ⊥
some_ne_none e = cc

remove-counted :
    (ls : List Lookup) (i : ℕ) (l : Lookup)
    → get_elem? ls i ≡ some l
    → decrement (pos (length ls)) ≡ pos (length (remove i ls))
remove-counted [] i l e = absurd (some_ne_none e)
remove-counted (m ∷ ls) zero l e = refl
remove-counted (m ∷ []) (suc i) l e = absurd (some_ne_none e)
remove-counted (m ∷ n ∷ ls) (suc i) l e = ap increment (remove-counted (n ∷ ls) i l e)

running :
    (ls : List Lookup) (i : ℕ) (l : Lookup) (failed : Bool)
    → get_elem? ls i ≡ some l
    → due failed ls ≡ []
running [] i l failed e = absurd (some_ne_none e)
running (m ∷ ls) i l failed e = refl

-- An answer on a look-up takes it off the list and off the counter.
pub remove-IsRunning :
    (p : Priv) (i : ℕ) (l : Lookup)
    → get_elem? p.unanswered i ≡ some l
    → IsRunning p
    → IsRunning (record p { unanswered = remove i p.unanswered; pending = decrement p.pending })
remove-IsRunning p i l e r = record {
  counted = ap decrement r.counted ∙ remove-counted p.unanswered i l e;
  unended = r.unended;
}

pub taken-IsRunning :
    (p : Priv) (i : ℕ) (l : Lookup)
    → get_elem? p.unanswered i ≡ some l
    → IsDue p
    → IsRunning (record p { unanswered = remove i p.unanswered; pending = decrement p.pending })
taken-IsRunning p i l e d =
    remove-IsRunning p i l e
      (record { counted = d.counted; unended = d.ended ∙ running p.unanswered i l p.failed e })
