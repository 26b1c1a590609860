-- ===== src/Nsswitch/ByAddress/Layout.antt =====
-- Where compat/nsswitch.c puts the parts of a host entry that was looked up by address.
use netresolve.Prelude.{
  ℕ, ℤ, zero, suc, ◌+◌, ◌*◌, ◌≤◌, ◌<◌, ◌≡◌, refl, ◌⊎◌, inl, inr, Option, none, some, List, [], ◌∷◌,
  CString, take, length, arith, ◌>>=◌,
}
use native.Mathlib.Nat.{zero-add}
use netresolve.Results.{HostEnt}
use netresolve.Nsswitch.{Buffer, append_size, address_length, tryagain, success}
use netresolve.Nsswitch.Packing.{behind, append_cases}
use netresolve.Nsswitch.ByAddress.{PlacedEntry, place_bytes, place_entry, gethostbyaddr2_r}

-- The addresses one behind the other, from an offset on.
abbrev pub addresses_from : ℕ → ℕ → List (List ℕ) → List (ℕ × List ℕ)
addresses_from at size [] = []
addresses_from at size (a ∷ as') = (at, take size a) ∷ addresses_from (at + size) size as'

-- The size of a name with the zero behind it.
abbrev pub name_size : Option CString → ℕ
name_size none = 0
name_size (some name) = length name + 1

-- Where the addresses begin: behind the name, a pointer for the aliases and one for each address, and
-- the NULL behind those.
abbrev pub addresses_at : HostEnt → ℕ
addresses_at he = name_size he.name + 8 + (length he.addresses + 1) * 8

-- The room that an entry takes.
abbrev pub entry_size : HostEnt → ℕ
entry_size he = addresses_at he + length he.addresses * address_length he.family

-- The entry in the buffer.
abbrev pub laid_out : HostEnt → PlacedEntry
laid_out he = record {
  name_at = 0;
  aliases_at = name_size he.name;
  list_at = name_size he.name + 8;
  addresses = addresses_from (addresses_at he) (address_length he.family) he.addresses;
}

-- The result if there is room, or none.
abbrev Placed : {A : Type 0} → ℕ → ℕ → A → Option A → Type 0
Placed size left value result =
    ((size ≤ left) × (result ≡ some value)) ⊎ ((left < size) × (result ≡ none))

sized : (a : List ℕ) (size : ℕ) → 0 < size → append_size (some a) size ≡ size
unfolding append_size
sized a zero h = elim h [ ]
sized a (suc n) h = refl

place_bytes-Placed :
    (size : ℕ) (as' : List (List ℕ)) (b : Buffer)
    → 0 < size
    → Placed (length as' * size) b.left (addresses_from b.at size as') (place_bytes size as' b)
unfolding place_bytes
place_bytes-Placed size [] b h = inl (omega arith, refl)
place_bytes-Placed size (a ∷ as') b h = elim (append_cases (some a) size b) [
  | inl (less, e) ↦ inr (grind (arith, sized a size h), rw e)
  | inr (fits, e) ↦ elim (place_bytes-Placed size as' (behind (append_size (some a) size) b) h) [
    | inl (k, r) ↦ inl (grind (arith, sized a size h), rw (e, ◌>>=◌, r, sized a size h))
    | inr (k, r) ↦ inr (grind (arith, sized a size h), rw (e, ◌>>=◌, r))
  ]
]

named : (name : Option CString) → append_size name 0 ≡ name_size name
unfolding append_size
named none = refl
named (some s) = omega arith

address_length-pos : (family : ℕ) → 0 < address_length family
address_length-pos family = ground arith

pointers : (n : ℕ) → append_size none n ≡ n
unfolding append_size
pointers n = refl

module _ (he : HostEnt) (buflen : ℕ) where
  abbrev at_start : Buffer
  at_start = record { at = 0; left = buflen }

  abbrev behind_name : Buffer
  behind_name = behind (name_size he.name) at_start

  abbrev behind_aliases : Buffer
  behind_aliases = behind 8 behind_name

  abbrev behind_list : Buffer
  behind_list = behind ((length he.addresses + 1) * 8) behind_aliases

  same_places :
      ◌≡◌ {A = Option PlacedEntry}
        (some (record {
          name_at = at_start.at;
          aliases_at = behind_name.at;
          list_at = behind_aliases.at;
          addresses = addresses_from behind_list.at (address_length he.family) he.addresses;
        }))
        (some (laid_out he))
  same_places = rw zero-add

  place_entry-Placed : Placed (entry_size he) buflen (laid_out he) (place_entry he at_start)
  unfolding place_entry
  place_entry-Placed =
      let size = address_length he.family in
      let name = rw (named he.name) at (append_cases he.name 0 at_start) in
      let aliases = rw (pointers 8) at (append_cases none 8 behind_name) in
      let list =
        rw (pointers ((length he.addresses + 1) * 8)) at
          (append_cases none ((length he.addresses + 1) * 8) behind_aliases) in
      let bytes = place_bytes-Placed size he.addresses behind_list (address_length-pos he.family) in
      elim name [
        | inl (less, e) ↦ inr (omega (arith, less), rw e refl)
        | inr (f₁, e₁) ↦ elim aliases [
          | inl (less, e) ↦ inr (omega (arith, less), rw (e₁, ◌>>=◌, e) refl)
          | inr (f₂, e₂) ↦ elim list [
            | inl (less, e) ↦ inr (omega (arith, less), rw (e₁, ◌>>=◌, e₂, e) refl)
            | inr (f₃, e₃) ↦ elim bytes [
              | inl (fits, e) ↦
                  inl (omega (arith, fits, f₁, f₂, f₃), rw (e₁, ◌>>=◌, e₂, e₃, e) same_places)
              | inr (less, e) ↦ inr (omega (arith, less), rw (e₁, ◌>>=◌, e₂, e₃, e) refl)
            ]
          ]
        ]
      ]

-- What is set of the entry: all of it, as laid out, if the buffer has room for it, or none.
abbrev pub IsPlacedEntry : HostEnt → ℕ → ℤ × Option PlacedEntry → Type 0
IsPlacedEntry he buflen result =
    ((entry_size he ≤ buflen) × (result ≡ (success, some (laid_out he))))
    ⊎ ((buflen < entry_size he) × (result ≡ (tryagain, none)))

-- For every entry that the look-up by address gives and every size of the buffer,
-- `_nss_netresolve_gethostbyaddr2_r` succeeds just if the buffer has room for the name with its zero, a
-- NULL for the aliases, the pointers to the addresses with a NULL behind them, and the addresses, and
-- otherwise asks to try again. If it succeeds, these stand in the buffer in that order, one behind
-- the other from its start on, and the addresses are those of the entry.
pub gethostbyaddr2_r-IsPlacedEntry :
    (he : HostEnt) (buflen : ℕ) → IsPlacedEntry he buflen (gethostbyaddr2_r (some he) buflen)
unfolding gethostbyaddr2_r
gethostbyaddr2_r-IsPlacedEntry he buflen = elim (place_entry-Placed he buflen) [
  | inl (fits, e) ↦ inl (fits, rw (gethostbyaddr2_r, e) refl)
  | inr (less, e) ↦ inr (less, rw (gethostbyaddr2_r, e) refl)
]
