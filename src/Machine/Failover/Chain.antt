-- ===== src/Machine/Failover/Chain.antt =====
-- The chain of backends (lib/query.c) and the search for the first that takes the query on.
use mathlib.Core.Path.{ap₂}
use netresolve.Prelude.{
  ◌≡◌, ◌≢◌, refl, sym, ap, ◌∙◌, inl, inr, true, false, Option, none, some, List, [], ◌∷◌, arith,
  Bool-cases, is_nonzero,
}
use netresolve.Types.{State, Request}
use netresolve.Query.{Call, Backend, Query, Env}
use netresolve.Watch.{timeout_add}
use netresolve.Machine.{do_calls, cleanup_query, notify, enter_waiting, same_state}
use netresolve.Machine.Entering.{
  default_protocol, next_backend, enter_failed, after_setup, run_setup, enter_setup, set_state,
  enter,
}
use netresolve.Machine.Failover.{verdict, do_calls-Ran}
use netresolve.Machine.Steady.{names, Steady, stay, cleanup_query-Steady}
use netresolve.Machine.Failover.Search.{defaulted, settle, attempt, chosen, reported, Tried}

default_protocol-request : (q : Query) → (default_protocol q).request ≡ defaulted q.request
unfolding default_protocol
default_protocol-request q = ground arith

defaulted_idem : (r : Request) → defaulted (defaulted r) ≡ defaulted r
defaulted_idem r = ground arith

-- What holds of a query when the backends in front of `bs` have been tried.
record Since (q q' : Query) : Type 0 where
  request : q'.request ≡ defaulted q.request
  callback : q'.callback ≡ q.callback
  notified : q'.notified ≡ q.notified

-- What was tried from such a query was tried from the first.
Tried-Since :
    (env : Env) (bs : List Backend) (q q₁ q₂ : Query)
    → Since q q₁
    → Tried env bs q₁ q₂
    → Tried env bs q q₂
Tried-Since env bs q q₁ q₂ h t =
    let same : defaulted q₁.request ≡ defaulted q.request =
      ap defaulted h.request ∙ defaulted_idem q.request in
    record {
      state = t.state ∙ ap (λ r. (chosen env r bs).0) same;
      backend = t.backend ∙ ap (λ r. names (chosen env r bs).1) same;
      callback = t.callback ∙ h.callback;
      notified =
          t.notified
          ∙ ap₂ (λ c n. reported c n (chosen env (defaulted q₁.request) bs).1) h.callback h.notified
          ∙ ap (λ r. reported q.callback q.notified (chosen env r bs).1) same;
    }

enter_waiting-Steady : (env : Env) (q : Query) → Steady q (enter_waiting env q)
unfolding enter_waiting timeout_add
enter_waiting-Steady env q = ground arith

module _ (r : Request) (q' : Query) (same : q'.request ≡ r) where
  settle_waiting :
      is_nonzero q'.request.request_timeout ≡ true → settle r State.setup ≡ some State.waiting
  settle_waiting p = ground arith

  settle_failed : is_nonzero q'.request.request_timeout ≡ false → settle r State.setup ≡ none
  settle_failed p = ground arith

module _ (env : Env) where
  fail_last :
      (q q' : Query)
      → Since q q'
      → (start : Query → Query) → Tried env [] q (enter_failed env start [] q')
  unfolding enter_failed next_backend notify
  fail_last q q' h start =
      ground (arith, cleanup_query-Steady env (record q' { state = State.failed }))

  -- Entering a setup with the backends `bs` tries them.
  abbrev pub Tries : List Backend → Type 0
  Tries bs =
      (q : Query)
      → q.state ≡ State.setup
      → names q.backend ≡ names bs
      → Tried env bs q (enter_setup env bs q)

  fail_next :
      (b : Backend) (bs : List Backend) (q q' : Query)
      → Since q q'
      → Tries (b ∷ bs)
      → Tried env (b ∷ bs) q (enter_failed env (enter_setup env (b ∷ bs)) (b ∷ bs) q')
  unfolding enter_failed next_backend
  fail_next b bs q q' h ih =
      let cleaned = cleanup_query env (record q' { state = State.failed }) in
      let kept = cleanup_query-Steady env (record q' { state = State.failed }) in
      let q₁ = record cleaned { backend = b ∷ bs; state = State.setup } in
      Tried-Since env (b ∷ bs) q q₁ _
        (record {
          request = kept.request ∙ h.request;
          callback = kept.callback ∙ h.callback;
          notified = kept.notified ∙ h.notified;
        })
        (ih q₁ refl refl)

  -- `fail` tries the backends behind the current one.
  Fails : List Backend → Query → (Query → Query) → Type 0
  Fails bs q fail = (q' : Query) → Since q q' → Tried env bs q (fail q')

  fails :
      (bs : List Backend) (q : Query)
      → (bs ≢ [] → Tries bs)
      → Fails bs q (enter_failed env (enter_setup env bs) bs)
  unfolding Fails
  fails [] q ih q' h = fail_last q q' h (enter_setup env [])
  fails (b ∷ bs) q ih q' h = fail_next b bs q q' h (ih (λ e. cc))

  module _ (b : Backend) (bs : List Backend) (q : Query) (fail : Query → Query)
      (next : Fails bs q fail) where
    taken_on :
        (s : State) (q' : Query)
        → attempt env (defaulted q.request) b ≡ some s
        → Since q q'
        → names q'.backend ≡ names (b ∷ bs)
        → q'.state ≡ s
        → Tried env (b ∷ bs) q q'
    taken_on s q' a h e t = record {
      state = rw (a, chosen) t;
      backend = rw (a, chosen) e;
      callback = h.callback;
      notified = rw (a, chosen) (h.notified);
    }

    passed_on :
        (q' : Query)
        → attempt env (defaulted q.request) b ≡ none
        → Tried env bs q q'
        → Tried env (b ∷ bs) q q'
    passed_on q' a t = record {
      state = rw (a, chosen) t.state;
      backend = rw (a, chosen) t.backend;
      callback = t.callback;
      notified = rw (a, chosen) t.notified;
    }

    after_setup-Tried :
        (s : State) (q' : Query)
        → attempt env (defaulted q.request) b ≡ settle (defaulted q.request) s
        → Since q q'
        → names q'.backend ≡ names (b ∷ bs)
        → q'.state ≡ s
        → Tried env (b ∷ bs) q (after_setup env fail s q')
    unfolding after_setup Fails
    after_setup-Tried State.setup q' a h e t =
        elim (Bool-cases (is_nonzero q'.request.request_timeout)) [
          | inl p ↦
              let w = enter_waiting-Steady env (record q' { state = State.waiting }) in
              rw p (
                taken_on State.waiting _ (a ∙ settle_waiting _ q' h.request p)
                  (record {
                    request = w.request ∙ h.request;
                    callback = w.callback ∙ h.callback;
                    notified = w.notified ∙ h.notified;
                  })
                  (w.backend ∙ e) w.state)
          | inr p ↦ rw p (passed_on _ (a ∙ settle_failed _ q' h.request p) (next q' h))
        ]
    after_setup-Tried State.error q' a h e t = passed_on _ a (next q' h)
    after_setup-Tried State.none q' a h e t = taken_on State.none q' a h e t
    after_setup-Tried State.waiting q' a h e t = taken_on State.waiting q' a h e t
    after_setup-Tried State.waiting_more q' a h e t = taken_on State.waiting_more q' a h e t
    after_setup-Tried State.resolved q' a h e t = taken_on State.resolved q' a h e t
    after_setup-Tried State.done q' a h e t = taken_on State.done q' a h e t
    after_setup-Tried State.failed q' a h e t = taken_on State.failed q' a h e t

    run_setup-Tried :
        (setup : Option (Request → List Call)) (q' : Query)
        → env.setup b (defaulted q.request).type ≡ setup
        → Since q q'
        → names q'.backend ≡ names (b ∷ bs)
        → q'.state ≡ State.setup
        → Tried env (b ∷ bs) q (run_setup env fail setup q')
    unfolding run_setup Fails
    run_setup-Tried none q' e h n t = passed_on _ (rw (e, attempt) refl) (next q' h)
    run_setup-Tried (some setup) q' e h n t =
        let ran = do_calls-Ran env (setup q'.request) q' in
        let q₁ = do_calls stay env (setup q'.request) q' in
        let verdict_on : verdict State.setup (setup (defaulted q.request)) ≡ q₁.state =
          sym (ran.state ∙ ap₂ (λ s r. verdict s (setup r)) t h.request) in
        after_setup-Tried q₁.state q₁ (rw (e, attempt, verdict_on) refl)
          (record {
            request = ran.kept.request ∙ h.request;
            callback = ran.kept.callback ∙ h.callback;
            notified = ran.kept.notified ∙ h.notified;
          })
          (ran.kept.backend ∙ n) refl

  pub enter_setup-Tried : (bs : List Backend) → bs ≢ [] → Tries bs
  unfolding enter_setup default_protocol
  enter_setup-Tried [] h q t n = absurd (h refl)
  enter_setup-Tried (b ∷ bs) h q t n =
      run_setup-Tried b bs q (enter_failed env (enter_setup env bs) bs)
        (fails bs q (enter_setup-Tried bs)) (env.setup b (default_protocol q).request.type)
        (default_protocol q) (ap (λ r. env.setup b r.type) (sym (default_protocol-request q)))
        (record {
          request = default_protocol-request q;
          callback = ground arith;
          notified = ground arith;
        })
        (ground arith ∙ n) (ground arith ∙ t)

-- Starting a query that is not in setup yet, with backends left to try, leaves it in the state that
-- the first backend chosen gives it, with that backend as the current one and those behind it left,
-- and calls the user's callback exactly if every backend failed. A backend is passed over if it has
-- no function for the request, if its last report is a failure, or if it reports nothing and the
-- request timeout is zero.
pub set_state-chosen :
    (env : Env) (q : Query)
    → same_state State.setup q.state ≡ false
    → q.backend ≢ []
    → Tried env q.backend q (set_state env State.setup q)
unfolding set_state enter
set_state-chosen env q new some_left =
    let tried =
      enter_setup-Tried env q.backend some_left (record q { state = State.setup }) refl refl in
    rw new (record {
      state = tried.state;
      backend = tried.backend;
      callback = tried.callback;
      notified = tried.notified;
    })
