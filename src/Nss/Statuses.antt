-- ===== src/Nss/Statuses.antt =====
-- backends/nss.c: how the statuses of the look-ups for the two families are combined.
use netresolve.Prelude.{ℤ, pos, negsuc, ◌≡◌, ◌≢◌, ◌⊎◌, ◌↔◌, arith}
use netresolve.Nss.{combine_statuses, tryagain, success, notfound}

-- The order of the two statuses does not matter. The look-ups together succeed just if one of them
-- does and none is to be tried again, and find nothing just if both find nothing.
pub combine_statuses_lem :
    (s4 s6 : ℤ)
    → (combine_statuses s4 s6 ≡ combine_statuses s6 s4)
      × ((combine_statuses s4 s6 ≡ success)
          ↔ (((s4 ≡ success) ⊎ (s6 ≡ success)) × (s4 ≢ tryagain) × (s6 ≢ tryagain)))
      × ((combine_statuses s4 s6 ≡ notfound) ↔ ((s4 ≡ notfound) × (s6 ≡ notfound)))
unfolding combine_statuses
combine_statuses_lem (pos a) (pos b) = ground arith
combine_statuses_lem (pos a) (negsuc b) = ground arith
combine_statuses_lem (negsuc a) (pos b) = ground arith
combine_statuses_lem (negsuc a) (negsuc b) = ground arith
