-- ===== src/Replaced/Examples.antt =====
-- The functions of compat/libc.c with buffers of some sizes.
use netresolve.Prelude.{ℤ, pos, ◌≡◌, refl, none, some, [], ◌∷◌, codes, arith}
use netresolve.Replaced.{
  NameDone, HostEntry, HostWritten, getnameinfo, write_names, write_if, overflows, gethostbyname2_r,
  write_host, write_entry, places, address_places, res_query,
}
use netresolve.Replaced.Layout.{Fits, IsLaidOut, getnameinfo-Fits, gethostbyname2_r-IsLaidOut}

abbrev found : NameDone
found = record { status = pos 0; host = some (codes "h"); serv = none }

written : (getnameinfo (some found) (some 2) none).status ≡ pos 0
unfolding getnameinfo write_names write_if overflows
written = refl

getnameinfo-Fits_example :
    Fits (some (codes "h")) (some 2) (getnameinfo (some found) (some 2) none).host
    × Fits none none (getnameinfo (some found) (some 2) none).serv
getnameinfo-Fits_example = getnameinfo-Fits found (some 2) none (omega arith) tt written

abbrev entry : HostEntry
entry = record {
  name = some (codes "host");
  aliases = 0;
  addresses = (192 ∷ 0 ∷ 2 ∷ 10 ∷ []) ∷ (192 ∷ 0 ∷ 2 ∷ 11 ∷ []) ∷ [];
  address_size = 4;
}

abbrev placed : HostWritten
placed = record { aliases_at = 5; list_at = 13; addresses_at = 37 ∷ 41 ∷ [] }

-- 45 bytes are just enough. The pointers are not aligned.
enough : gethostbyname2_r (pos 0) (some (some entry)) 45 ≡ some (pos 0, some placed)
unfolding gethostbyname2_r write_host write_entry places address_places
enough = refl

too_small : gethostbyname2_r (pos 0) (some (some entry)) 44 ≡ some (pos 34, none)
unfolding gethostbyname2_r write_host places
too_small = refl

gethostbyname2_r-IsLaidOut_example : ◌≡◌ {A = ℤ} (pos 0) (pos 0) × IsLaidOut entry 45 placed
gethostbyname2_r-IsLaidOut_example =
    gethostbyname2_r-IsLaidOut (pos 0) entry 45 (pos 0) placed enough

-- A host that is not found is a NULL that is dereferenced.
not_found : gethostbyname2_r (pos 0) (some none) 45 ≡ none
unfolding gethostbyname2_r
not_found = refl

-- An answer that is too long for the buffer is not copied, and its length is returned all the same.
not_copied : res_query (some (1 ∷ 2 ∷ 3 ∷ [])) 2 ≡ (pos 3, none)
unfolding res_query
not_copied = refl
