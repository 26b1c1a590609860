-- ===== src/Asyncns.antt =====
-- compat/asyncns.c: the queries of a session, in a ring of linked blocks. A block is named by a number,
-- and the number 0 is the member `queries` of the session. What the functions of lib/compat.c return
-- on a query is given.
mod Examples
pub mod Rings
pub mod Runs
use netresolve.Prelude.{
  ℕ, ℤ, pos, zero, suc, ◌+◌, Bool, true, false, not, ◌&&◌, Option, none, some, List, [], ◌∷◌, ◌++◌,
  CString, length, ◌==◌, leb, if◌then◌else◌,
}

-- The fields of all the blocks of struct asyncns_query, as functions of the block. `freed` are the
-- blocks that were freed and `cancelled` the queries that were freed with netresolve_query_free.
pub record Blocks : Type 0 where
  pub next : ℕ → ℕ
  pub previous : ℕ → ℕ
  pub query : ℕ → ℕ
  pub done : ℕ → Bool
  pub userdata : ℕ → ℕ
  pub freed : List ℕ
  pub cancelled : List ℕ

-- a store to one block
pub store {ℓ} : {A : Type ℓ} → (ℕ → A) → ℕ → A → ℕ → A
store f q v p = if p == q then v else f p

abbrev pub set_next : ℕ → ℕ → Blocks → Blocks
set_next q v b = record b { next = store b.next q v }

abbrev pub set_previous : ℕ → ℕ → Blocks → Blocks
set_previous q v b = record b { previous = store b.previous q v }

-- the end of `enqueue`, which reads the pointers of the block again
pub link : ℕ → Blocks → Blocks
link q b = let b' = set_next (b.previous q) q b in set_previous (b'.next q) q b'

-- `enqueue` at the end of the list
pub enqueue : ℕ → Blocks → Blocks
enqueue q b = link q (set_next q 0 (set_previous q (b.previous 0) b))

-- `dequeue`
pub dequeue : ℕ → Blocks → Blocks
dequeue q b =
    let b' = set_next (b.previous q) (b.next q) b in set_previous (b'.next q) (b'.previous q) b'

-- `callback`
pub callback : ℕ → Blocks → Blocks
callback q b = record b { done = store b.done q true }

-- the `calloc` of a block, before its query is made
pub new_block : ℕ → Blocks → Blocks
new_block q b = record b {
  next = store b.next q 0;
  previous = store b.previous q 0;
  query = store b.query q 0;
  done = store b.done q false;
  userdata = store b.userdata q 0;
}

-- `add_query` on a block and its query, if there is one. The callback of the query may have come
-- already, and `done` stays as it is.
pub add_query : ℕ → Option ℕ → Blocks → Option ℕ × Blocks
add_query q none b = (none, record b { freed = b.freed ++ q ∷ [] })
add_query q (some query) b = (some q, enqueue q (record b { query = store b.query q query }))

abbrev free : ℕ → Blocks → Blocks
free q b = record b { freed = b.freed ++ q ∷ [] }

-- `remove_query`
pub remove_query : ℕ → Blocks → ℕ × Blocks
remove_query q b = (b.query q, free q (dequeue q b))

-- `asyncns_cancel`
pub cancel : ℕ → Blocks → Blocks
cancel q b = free q (dequeue q (record b { cancelled = b.cancelled ++ b.query q ∷ [] }))

-- The loop of `asyncns_getnext` from a block on: the block that is found, if any; the outer `none` is
-- that the fuel has run out.
pub find_done : ℕ → ℕ → Blocks → Option (Option ℕ)
find_done zero q b = none
find_done (suc f) q b =
    let rest = find_done f (b.next q) b in
    if q == 0 then some none else if b.done q then some (some q) else rest

abbrev one_more : Option ℕ → Option ℕ
one_more none = none
one_more (some n) = some (suc n)

-- The loop of `asyncns_getnqueries` from a block on; `none` is that the fuel has run out.
pub count_from : ℕ → ℕ → Blocks → Option ℕ
count_from zero q b = none
count_from (suc f) q b =
    let rest = count_from f (b.next q) b in if q == 0 then some 0 else one_more rest

-- The loop of `asyncns_free`; `none` is that the fuel has run out
pub cancel_all : ℕ → Blocks → Option Blocks
cancel_all zero b = none
cancel_all (suc f) b =
    let rest = cancel_all f (cancel (b.next 0) b) in if b.next 0 == 0 then some b else rest

-- What `netresolve_query_getnameinfo_done` gives: an error, or the names.
pub data NameResult : Type 0 where
  error : ℤ → NameResult
  names : CString → CString → NameResult

-- `asyncns_getnameinfo_done`: the status, and what is written to the two buffers, if anything is
pub getnameinfo_done : ℤ → ℕ → ℕ → NameResult → ℤ × Option (CString × CString)
getnameinfo_done erange hostlen servlen (NameResult.error status) = (status, none)
getnameinfo_done erange hostlen servlen (NameResult.names host serv) =
    if leb hostlen (suc (length host)) && leb servlen (suc (length serv))
    then (pos 0, some (host ++ 0 ∷ [], serv ++ 0 ∷ []))
    else (erange, none)

-- what `asyncns_new` sets; there are no blocks yet
pub new_session : Blocks
new_session = record {
  next = λ q. 0;
  previous = λ q. 0;
  query = λ q. 0;
  done = λ q. false;
  userdata = λ q. 0;
  freed = [];
  cancelled = [];
}

-- `asyncns_res_done`: the answer, and the query is freed
unfoldable pub res_done : ℕ → List ℕ → Blocks → List ℕ × Blocks
res_done q answer b =
    let (query, b') = remove_query q b in
    (answer, record b' { cancelled = b'.cancelled ++ query ∷ [] })

-- `asyncns_setuserdata` and `asyncns_getuserdata`
unfoldable pub setuserdata : ℕ → ℕ → Blocks → Blocks
setuserdata q userdata b = record b { userdata = store b.userdata q userdata }

unfoldable pub getuserdata : ℕ → Blocks → ℕ
getuserdata q b = b.userdata q
