-- ===== src/Context/Examples.antt =====
-- A backend string of lib/context.c with a mandatory backend and one with a setting.
use netresolve.Prelude.{◌≡◌, [], ◌∷◌, codes}
use netresolve.Context.{scan_backends, has_name}
use netresolve.Context.Splitting.{scan_backends-split_on}

scan_backends-split_on_example :
    scan_backends [] [] (codes "+hosts||dns x")
    ≡ (codes "+hosts" ∷ []) ∷ (codes "dns" ∷ codes "x" ∷ []) ∷ []
unfolding has_name
scan_backends-split_on_example = scan_backends-split_on (codes "+hosts||dns x")
