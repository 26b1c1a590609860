-- ===== src/Start/Lives.antt =====
-- The responses of queries from their start on (lib/query.c).
use netresolve.Prelude.{
  ◌∙◌, sym, ℕ, ◌≡◌, refl, Bool, true, Option, none, some, ◌⊎◌, List, [], ◌∷◌, arith, Bool-cases,
  inl, inr, CString,
}
use netresolve.Types.{State, RequestType, Request}
use netresolve.Types.Af
use netresolve.Options.{Setting, set_options}
use netresolve.Context.{Context, Variables}
use netresolve.Query.{Backend, Query, Env}
use netresolve.Machine.Entering.{set_state}
use netresolve.Machine.Answers.{Follows-Laws, IsAnswer, Follows, Follows-trans}
use netresolve.Machine.Laws.Steps.{set_state-keeps}
use netresolve.Machine.Laws.Lives.{dispatch_all, dispatch_all-keeps}
use netresolve.Start.{query_new, start_query, force, query, context_backends, blank_query}

-- A query whose response is empty, behind a change of state and some events.
abbrev life : Env → List ℕ → Query → Query
life env ids q = dispatch_all env ids (set_state env State.setup q)

life-Follows : (env : Env) (ids : List ℕ) (q : Query) → Follows env q (life env ids q)
life-Follows env ids q =
    Follows-trans env q (set_state env State.setup q) _
      (set_state-keeps env (Follows env) (Follows-Laws env) State.setup q)
      (dispatch_all-keeps env (Follows env) (Follows-Laws env) ids (set_state env State.setup q))

empty-IsAnswer : (env : Env) (q : Query) → q.response.paths ≡ [] → IsAnswer env q
empty-IsAnswer env q h = rw h (tt, λ on. tt)

-- The query that is started, if there is one: its response is empty, and its family the forced one.
abbrev Starts : Env → ℕ → Query → Type 0
Starts env forced q =
    (q₀ : Query) × (q ≡ set_state env State.setup q₀)
    × (q₀.response.paths ≡ [])
    × ((forced ≡ Af.unspec) ⊎ (q₀.request.family ≡ forced))

force-family : (f : ℕ) (r : Request) → (f ≡ Af.unspec) ⊎ ((force f r).family ≡ f)
unfolding force
force-family f r = ground arith

start_query-Starts :
    (env : Env) (context : Context) (settings : List Setting) (q q' : Query)
    → q.response.paths ≡ []
    → start_query env context settings q ≡ some q'
    → Starts env context.force_family q'
unfolding start_query
start_query-Starts env context settings q q' h e =
    let r = (set_options q.request settings).0 in
    elim (Bool-cases (set_options q.request settings).1) [
      | inl k ↦
          let q₀ = record q { request = force context.force_family r } in
          let same : some (set_state env State.setup q₀) ≡ some q' = rw (k, start_query) at e in
          (q₀, cc, h, force-family context.force_family r)
      | inr k ↦ cc (rw (k, start_query) at e)
    ]

-- The paths of a query that is there are none.
abbrev IsFresh : Option Query → Type 0
IsFresh none = Unit
IsFresh (some q) = q.response.paths ≡ []

query_new-IsFresh :
    (plugins : CString → Bool) (v : Variables) (context : Context) (type : RequestType)
    (callback : Bool)
    → IsFresh (query_new plugins v context type callback)
unfolding query_new blank_query
query_new-IsFresh plugins v context type callback =
    fresh (context_backends plugins v context.backends)
  where
    fresh :
        (bs : List Backend)
        → IsFresh (elim bs [
          | [] ↦ none
          | b ∷ bs ↦ some (blank_query (b ∷ bs) (record context.request { type = type }) callback)
        ])
    fresh [] = tt
    fresh (b ∷ bs) = refl

-- What `query` makes of the query that is made.
abbrev starting : Env → Context → List Setting → Option Query → Option (Option Query)
starting env context settings none = none
starting env context settings (some q) = some (start_query env context settings q)

starting-Starts :
    (env : Env) (context : Context) (settings : List Setting) (made : Option Query) (q : Query)
    → IsFresh made
    → starting env context settings made ≡ some (some q)
    → Starts env context.force_family q
starting-Starts env context settings none q fresh e = cc
starting-Starts env context settings (some q₁) q fresh e =
    start_query-Starts env context settings q₁ q fresh (cc)

query-starting :
    (plugins : CString → Bool) (v : Variables) (env : Env) (context : Context) (type : RequestType)
    (settings : List Setting)
    → query plugins v env context type settings
      ≡ starting env context settings (query_new plugins v context type true)
unfolding query
query-starting plugins v env context type settings = refl

query-Starts :
    (plugins : CString → Bool) (v : Variables) (env : Env) (context : Context) (type : RequestType)
    (settings : List Setting) (q : Query)
    → query plugins v env context type settings ≡ some (some q)
    → Starts env context.force_family q
query-Starts plugins v env context type settings q e =
    starting-Starts env context settings (query_new plugins v context type true) q
      (query_new-IsFresh plugins v context type true)
      (sym (query-starting plugins v env context type settings) ∙ e)

started-IsAnswer :
    (env : Env) (forced : ℕ) (ids : List ℕ) (q : Query)
    → Starts env forced q
    → IsAnswer env (dispatch_all env ids q)
      × ((forced ≡ Af.unspec) ⊎ ((dispatch_all env ids q).request.family ≡ forced))
started-IsAnswer env forced ids q (q₀, same, empty, family) =
    let lived = life-Follows env ids q₀ in
    rw same (
      lived.answer (empty-IsAnswer env q₀ empty),
      elim family [ inl none_forced ↦ inl none_forced | inr f ↦ inr (lived.family ∙ f) ],
    )

-- Once a query has been started, whatever the plugins and the system do and whichever watches are
-- dispatched in whatever order, the paths of its response are of the family that its request is
-- limited to, which is the forced one if there is one, and in the order of preference unless sorting
-- is switched off.
pub query-IsAnswer :
    (plugins : CString → Bool) (v : Variables) (env : Env) (context : Context) (type : RequestType)
    (settings : List Setting) (ids : List ℕ) (q : Query)
    → query plugins v env context type settings ≡ some (some q)
    → IsAnswer env (dispatch_all env ids q)
      × ((context.force_family ≡ Af.unspec)
          ⊎ ((dispatch_all env ids q).request.family ≡ context.force_family))
query-IsAnswer plugins v env context type settings ids q e =
    started-IsAnswer env context.force_family ids q
      (query-Starts plugins v env context type settings q e)
