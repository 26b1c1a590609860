-- ===== src/Machine/Answers/Lives.antt =====
-- What a response holds while the event loop dispatches watches (lib/query.c).
use netresolve.Prelude.{ℕ, List}
use netresolve.Query.{Query, Env}
use netresolve.Machine.Laws.Lives.{dispatch_all, dispatch_all-keeps}
use netresolve.Machine.Answers.{IsAnswer, Follows, Follows-Laws}

-- Whatever the plugins and the system do, and whichever watches are dispatched in whatever order, a
-- response whose paths are all of the family that the request is limited to, and in the order of
-- preference unless sorting is switched off, stays so.
pub dispatch_all-IsAnswer :
    (env : Env) (ids : List ℕ) (q : Query) → IsAnswer env q → IsAnswer env (dispatch_all env ids q)
dispatch_all-IsAnswer env ids q h =
    (dispatch_all-keeps env (Follows env) (Follows-Laws env) ids q).answer h
