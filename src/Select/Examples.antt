-- ===== src/Select/Examples.antt =====
-- Two descriptors in the loop of lib/select.c.
use mathlib.Core.Path.{subst}
use netresolve.Prelude.{
  sym, ap, ℕ, ◌≡◌, refl, true, false, Option, none, some, ◌==◌, if◌then◌else◌, inl,
}
use netresolve.Select.{FdSet, Loop, PollEvents, new_loop, add_watch, remove_watch, wait, is_watched}
use netresolve.Select.Tight.{IsTight, view, add_watch-view, remove_watch-view}

abbrev reading : PollEvents
reading = record { read = true; write = false }

new_loop-IsTight : IsTight new_loop
new_loop-IsTight = (λ fd h. cc, inl refl)

abbrev loop_or : Loop → Option Loop → Loop
loop_or l none = l
loop_or l (some k) = k

-- Source 40 reads from descriptor 4.
abbrev one : Loop
one = loop_or new_loop (add_watch 4 reading 40 new_loop)

one-IsTight : IsTight one
one-IsTight =
    let (l, e, _, tight) = add_watch-view 4 reading 40 new_loop refl refl new_loop-IsTight in
    subst IsTight (sym (ap (loop_or new_loop) e)) tight

four_watched : is_watched one 4 ≡ true
unfolding add_watch
four_watched = refl

seven_free : is_watched one 7 ≡ false
unfolding add_watch
seven_free = refl

-- Source 70 reads from descriptor 7 too.
abbrev two : Loop
two = loop_or one (add_watch 7 reading 70 one)

two-IsTight : IsTight two
two-IsTight =
    let (l, e, _, tight) = add_watch-view 7 reading 70 one seven_free refl one-IsTight in
    subst IsTight (sym (ap (loop_or one) e)) tight

-- All is ready that is asked for.
abbrev all_ready : ℕ → FdSet → FdSet → FdSet × FdSet
all_ready n r w = (r, w)

-- The handler of source 40 removes the watch of descriptor 7, which is ready too: an assertion fails.
removes_other : wait all_ready (λ source read l. loop_or l (remove_watch 7 l)) two ≡ none
unfolding wait add_watch remove_watch
removes_other = refl

remove_watch-view_example :
    (l : Loop) × (remove_watch 4 one ≡ some l)
    × ((i : ℕ) → view l i ≡ (if i == 4 then none else view one i))
    × IsTight l
remove_watch-view_example = remove_watch-view 4 one four_watched one-IsTight
