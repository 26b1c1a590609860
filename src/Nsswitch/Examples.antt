-- ===== src/Nsswitch/Examples.antt =====
-- Two addresses with a canonical name, put into buffers by compat/nsswitch.c.
use netresolve.Prelude.{pos, ◌≡◌, refl, none, some, [], ◌∷◌, codes}
use netresolve.Types.Af
use netresolve.Nsswitch.{
  InfoList, append_size, buffer_append, extract_address, tuple_of, named_tuple, placed_tuple,
  place_tuples, gethostbyname4_r, gethostbyname3_r, placed_list, placed_addresses, placed_name,
  place_addresses, placed_address,
}
use netresolve.Results.{HostEnt}
use netresolve.Nsswitch.ByAddress.{place_bytes, place_entry, gethostbyaddr2_r}
use netresolve.Nsswitch.ByAddress.Layout.{IsPlacedEntry, gethostbyaddr2_r-IsPlacedEntry}
use netresolve.Nsswitch.Packing.{IsPlaced, gethostbyname4_r-IsPlaced}

abbrev found : InfoList
found = record {
  items =
      record { family = Af.inet; address = 192 ∷ 0 ∷ 2 ∷ 10 ∷ [] }
      ∷ record { family = Af.inet; address = 192 ∷ 0 ∷ 2 ∷ 11 ∷ [] }
      ∷ [];
  canonname = some (codes "host");
}

gethostbyname4_r-IsPlaced_example :
    IsPlaced
      (some (codes "host"))
      found.items
      (record { at = 0; left = 100 })
      (gethostbyname4_r (some found) 100)
gethostbyname4_r-IsPlaced_example = gethostbyname4_r-IsPlaced found 100

second_tuple : gethostbyname4_r (some found) 85 ≡ (
  pos 1,
  record { at = 0; family = 2; address = 192 ∷ 0 ∷ 2 ∷ 10 ∷ []; name = some 40 }
      ∷ record { at = 45; family = 2; address = 192 ∷ 0 ∷ 2 ∷ 11 ∷ []; name = none }
      ∷ [],
)
unfolding gethostbyname4_r place_tuples placed_tuple named_tuple buffer_append append_size tuple_of
    extract_address
second_tuple = refl

host_entry : gethostbyname3_r (some found) Af.inet 100 ≡ (
  pos 1,
  some (record {
    list_at = 0;
    addresses = (24, 192 ∷ 0 ∷ 2 ∷ 10 ∷ []) ∷ (28, 192 ∷ 0 ∷ 2 ∷ 11 ∷ []) ∷ [];
    name = some 32;
  }),
)
unfolding gethostbyname3_r placed_list placed_addresses placed_name place_addresses placed_address
    buffer_append append_size extract_address
host_entry = refl

abbrev entry : HostEnt
entry = record {
  name = some (codes "host");
  family = Af.inet;
  addresses = (192 ∷ 0 ∷ 2 ∷ 10 ∷ []) ∷ [];
}

gethostbyaddr2_r-IsPlacedEntry_example : IsPlacedEntry entry 33 (gethostbyaddr2_r (some entry) 33)
gethostbyaddr2_r-IsPlacedEntry_example = gethostbyaddr2_r-IsPlacedEntry entry 33

by_address : gethostbyaddr2_r (some entry) 33 ≡ (
  pos 1,
  some (record {
    name_at = 0;
    aliases_at = 5;
    list_at = 13;
    addresses = (29, 192 ∷ 0 ∷ 2 ∷ 10 ∷ []) ∷ [];
  }),
)
unfolding gethostbyaddr2_r place_entry place_bytes buffer_append append_size
by_address = refl
