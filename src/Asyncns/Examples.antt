-- ===== src/Asyncns/Examples.antt =====
-- A session of compat/asyncns.c with three queries, of which one is taken out.
use netresolve.Prelude.{pos, ◌≡◌, refl, none, some, List, [], ◌∷◌, ◌++◌, codes, arith}
use netresolve.Asyncns.{
  Blocks, NameResult, store, link, enqueue, dequeue, callback, new_block, add_query, remove_query,
  find_done, count_from, new_session, getnameinfo_done,
}
use netresolve.Asyncns.Rings.{Holds}
use netresolve.Asyncns.Runs.{
  Happening, was_called, query_of, Reached, begun, allocated, added, called, removed, first_done,
  IsCleared, session-Holds,
}

-- The callback of block 7 comes before its query is added, that of block 9 afterwards.
abbrev one : Blocks
one = (add_query 7 (some 70) (callback 7 (new_block 7 new_session))).1

abbrev eight : Blocks
eight = (add_query 8 (some 80) (new_block 8 one)).1

abbrev three : Blocks
three = (add_query 9 (some 90) (new_block 9 eight)).1

abbrev two : Blocks
two = (remove_query 8 (callback 9 three)).1

abbrev history : List Happening
history =
    Happening.called 9
    ∷ Happening.added 9 90
    ∷ Happening.allocated 9
    ∷ Happening.added 8 80
    ∷ Happening.allocated 8
    ∷ Happening.added 7 70
    ∷ Happening.called 7
    ∷ Happening.allocated 7
    ∷ []

one-Reached :
    Reached one (7 ∷ []) (Happening.added 7 70 ∷ Happening.called 7 ∷ Happening.allocated 7 ∷ [])
one-Reached = added (called (allocated begun 7 (omega arith)) 7) 7 70 (omega arith)

eight-Reached : Reached eight (7 ∷ 8 ∷ []) (
    Happening.added 8 80
    ∷ Happening.allocated 8
    ∷ Happening.added 7 70
    ∷ Happening.called 7
    ∷ Happening.allocated 7
    ∷ [])
eight-Reached = added (allocated one-Reached 8 (omega arith)) 8 80 (omega arith)

two-Reached : Reached two (7 ∷ 9 ∷ []) history
two-Reached =
    removed (called (added (allocated eight-Reached 9 (omega arith)) 9 90 (omega arith)) 9) 8
      (7 ∷ []) (9 ∷ []) (7 ∷ 9 ∷ []) refl refl

session-Holds_example :
    Holds two (7 ∷ 9 ∷ [])
    × (count_from 3 (two.next 0) two ≡ some 2)
    × (find_done 3 (two.next 0) two ≡ some (first_done (λ q. was_called q history) (7 ∷ 9 ∷ [])))
    × ((b' : Blocks) × IsCleared (λ q. query_of q history) two (7 ∷ 9 ∷ []) b')
session-Holds_example = session-Holds two (7 ∷ 9 ∷ []) history two-Reached

-- The query in block 7 is done, though its callback came before it was added.
seven_done : find_done 3 (two.next 0) two ≡ some (some 7)
unfolding find_done remove_query dequeue callback new_block add_query enqueue link store new_session
seven_done = refl

-- Names that fit the buffers are refused, and names that do not are written.
fitting_refused :
    getnameinfo_done (pos 34) 100 100 (NameResult.names (codes "h") (codes "s")) ≡ (pos 34, none)
unfolding getnameinfo_done
fitting_refused = refl

overflowing_written :
    getnameinfo_done (pos 34) 1 1 (NameResult.names (codes "h") (codes "s"))
    ≡ (pos 0, some (codes "h" ++ 0 ∷ [], codes "s" ++ 0 ∷ []))
unfolding getnameinfo_done
overflowing_written = refl
