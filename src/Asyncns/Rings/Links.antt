-- ===== src/Asyncns/Rings/Links.antt =====
-- Linking a block at the end of the ring of compat/asyncns.c, and unlinking one.
use mathlib.Core.Path.{subst}
use netresolve.Prelude.{ℕ, ◌≡◌, ◌≢◌, sym, ap, ◌∙◌, List, [], ◌∷◌, ◌++◌}
use netresolve.Asyncns.{Blocks, store, link, enqueue, dequeue}
use netresolve.Asyncns.Rings.{
  IsNew, Distinct, Leads, LeadsBack, Holds, store_self, store_other, last, LeadsBack-last,
  IsNew-last, Leads-store, LeadsBack-store, Leads-enqueue, LeadsBack-enqueue, first_or, Leads-at,
  LeadsBack-at, IsNew-append, IsNew-first,
}

Leads-dequeue :
    (f : ℕ → ℕ) (q a : ℕ) (ys zs : List ℕ) (end : ℕ)
    → Distinct (a ∷ (ys ++ q ∷ zs))
    → Leads f a (ys ++ q ∷ zs) end
    → Leads (store f (last a ys) (f q)) a (ys ++ zs) end
Leads-dequeue f q a [] [] end d h = store_self f a (f q) ∙ h.1
Leads-dequeue f q a [] (z ∷ zs) end d h =
    (store_self f a (f q) ∙ h.1.0, Leads-store f a (f q) z zs end d.0.1 h.1.1)
Leads-dequeue f q a (y ∷ ys) zs end d h = (
  store_other f (last y ys) (f q) a (IsNew-last a y ys (IsNew-append a (y ∷ ys) (q ∷ zs) d.0).0)
      ∙ h.0,
  Leads-dequeue f q y ys zs end d.1 h.1,
)

LeadsBack-dequeue :
    (g : ℕ → ℕ) (q a v : ℕ) (ys zs : List ℕ) (end : ℕ)
    → v ≡ last a ys
    → Distinct (ys ++ q ∷ zs)
    → IsNew end (ys ++ q ∷ zs)
    → LeadsBack g a (ys ++ q ∷ zs) end
    → LeadsBack (store g (first_or zs end) v) a (ys ++ zs) end
LeadsBack-dequeue g q a v [] [] end e d new h = store_self g end v ∙ e
LeadsBack-dequeue g q a v [] (z ∷ zs) end e d new h =
    (store_self g z v ∙ e, LeadsBack-store g z v z zs end d.1.0 (λ k. new.1.0 (sym k)) h.1.1)
LeadsBack-dequeue g q a v (y ∷ ys) zs end e d new h = (
  store_other g (first_or zs end) v y
        (IsNew-first y zs end (IsNew-append y ys (q ∷ zs) d.0).1.1 (λ k. new.0 (sym k)))
      ∙ h.0,
  LeadsBack-dequeue g q y v ys zs end e d.1 new.1 h.1,
)

IsNew-snoc : (x q : ℕ) (xs : List ℕ) → IsNew x xs → x ≢ q → IsNew x (xs ++ q ∷ [])
IsNew-snoc x q [] h other = (other, tt)
IsNew-snoc x q (y ∷ xs) h other = (h.0, IsNew-snoc x q xs h.1 other)

Distinct-snoc : (q : ℕ) (xs : List ℕ) → IsNew q xs → Distinct xs → Distinct (xs ++ q ∷ [])
Distinct-snoc q [] new d = (tt, tt)
Distinct-snoc q (x ∷ xs) new d =
    (IsNew-snoc x q xs d.0 (λ e. new.0 (sym e)), Distinct-snoc q xs new.1 d.1)

IsNew-without : (x q : ℕ) (ys zs : List ℕ) → IsNew x (ys ++ q ∷ zs) → IsNew x (ys ++ zs)
IsNew-without x q [] zs h = h.1
IsNew-without x q (y ∷ ys) zs h = (h.0, IsNew-without x q ys zs h.1)

Distinct-without : (q : ℕ) (ys zs : List ℕ) → Distinct (ys ++ q ∷ zs) → Distinct (ys ++ zs)
Distinct-without q [] zs d = d.1
Distinct-without q (y ∷ ys) zs d = (IsNew-without y q ys zs d.0, Distinct-without q ys zs d.1)

-- `enqueue` puts a new block behind the others.
pub enqueue-Holds :
    (b : Blocks) (q : ℕ) (xs : List ℕ)
    → IsNew q (0 ∷ xs)
    → Holds b xs
    → Holds (enqueue q b) (xs ++ q ∷ [])
unfolding enqueue link
enqueue-Holds b q xs new h =
    let before = store b.previous q (b.previous 0) in
    let at_end : before q ≡ last 0 xs =
      store_self b.previous q (b.previous 0) ∙ LeadsBack-last b.previous 0 xs 0 h.backward in
    let after = store (store b.next q 0) (before q) q in
    let at_head : after q ≡ 0 =
      ap (λ l. store (store b.next q 0) l q q) at_end
      ∙ store_other (store b.next q 0) (last 0 xs) q q (IsNew-last q 0 xs new)
      ∙ store_self b.next q 0 in
    record {
      forward =
          subst (λ l. Leads (store (store b.next q 0) l q) 0 (xs ++ q ∷ []) 0) (sym at_end)
            (Leads-enqueue (store b.next q 0) q 0 xs 0 new h.distinct (store_self b.next q 0)
              (Leads-store b.next q 0 0 xs 0 new h.forward));
      backward =
          subst (λ n. LeadsBack (store before n q) 0 (xs ++ q ∷ []) 0) (sym at_head)
            (LeadsBack-enqueue before q 0 xs 0 h.distinct.0 (λ e. new.0 (sym e)) at_end
              (LeadsBack-store b.previous q (b.previous 0) 0 xs 0 new.1 new.0 h.backward));
      distinct = Distinct-snoc q (0 ∷ xs) new h.distinct;
    }

IsNew-middle : (x q : ℕ) (ys zs : List ℕ) → IsNew x (ys ++ q ∷ zs) → x ≢ q
IsNew-middle x q [] zs h = h.0
IsNew-middle x q (y ∷ ys) zs h = IsNew-middle x q ys zs h.1

Distinct-middle : (q : ℕ) (ys zs : List ℕ) → Distinct (ys ++ q ∷ zs) → IsNew q ys
Distinct-middle q [] zs d = tt
Distinct-middle q (y ∷ ys) zs d =
    (λ e. IsNew-middle y q ys zs d.0 (sym e), Distinct-middle q ys zs d.1)

-- `dequeue` leaves a block of the list out.
pub dequeue-Holds :
    (b : Blocks) (q : ℕ) (ys zs : List ℕ) → Holds b (ys ++ q ∷ zs) → Holds (dequeue q b) (ys ++ zs)
unfolding dequeue
dequeue-Holds b q ys zs h =
    let at_prev : b.previous q ≡ last 0 ys = LeadsBack-at b.previous q 0 ys zs 0 h.backward in
    let other : q ≢ last 0 ys =
      IsNew-last q 0 ys
        (λ e. IsNew-middle 0 q ys zs h.distinct.0 (sym e), Distinct-middle q ys zs h.distinct.1) in
    let after = store b.next (b.previous q) (b.next q) q in
    let at_next : after ≡ first_or zs 0 =
      ap (λ p. store b.next p (b.next q) q) at_prev
      ∙ store_other b.next (last 0 ys) (b.next q) q other
      ∙ Leads-at b.next q 0 ys zs 0 h.forward in
    record {
      forward =
          subst (λ p. Leads (store b.next p (b.next q)) 0 (ys ++ zs) 0) (sym at_prev)
            (Leads-dequeue b.next q 0 ys zs 0 h.distinct h.forward);
      backward =
          subst (λ n. LeadsBack (store b.previous n (b.previous q)) 0 (ys ++ zs) 0) (sym at_next)
            (LeadsBack-dequeue b.previous q 0 (b.previous q) ys zs 0 at_prev h.distinct.1
              h.distinct.0 h.backward);
      distinct = (IsNew-without 0 q ys zs h.distinct.0, Distinct-without q ys zs h.distinct.1);
    }
