-- ===== src/Nsswitch/ByAddress.antt =====
-- compat/nsswitch.c: the look-up of a host by its address, whose result is put into the caller's buffer.
pub mod Layout
use netresolve.Prelude.{ℕ, ℤ, ◌+◌, ◌*◌, Option, none, some, List, [], ◌∷◌, take, length, ◌>>=◌}
use netresolve.Results.{HostEnt}
use netresolve.Nsswitch.{Buffer, buffer_append, address_length, tryagain, unavail, success}

-- What `_nss_netresolve_gethostbyaddr2_r` sets of struct hostent: places in the buffer, and the bytes
-- of the addresses.
pub record PlacedEntry : Type 0 where
  pub name_at : ℕ
  pub aliases_at : ℕ
  pub list_at : ℕ
  pub addresses : List (ℕ × List ℕ)

-- the loop over the addresses; `none` is that there is no room
unfoldable pub place_bytes : ℕ → List (List ℕ) → Buffer → Option (List (ℕ × List ℕ))
place_bytes size [] b = some []
place_bytes size (a ∷ as') b = do
  (at, b') ← buffer_append (some a) size b
  rest ← place_bytes size as' b'
  some ((at, take size a) ∷ rest)

-- The parts of the entry. Nothing is appended for a NULL name, whose place is that of what is behind.
unfoldable pub place_entry : HostEnt → Buffer → Option PlacedEntry
unfolding place_bytes
place_entry he b = do
  (name_at, b₁) ← buffer_append he.name 0 b
  (aliases_at, b₂) ← buffer_append none 8 b₁
  (list_at, b₃) ← buffer_append none ((length he.addresses + 1) * 8) b₂
  addresses ← place_bytes (address_length he.family) he.addresses b₃
  some (record {
    name_at = name_at;
    aliases_at = aliases_at;
    list_at = list_at;
    addresses = addresses;
  })

-- `_nss_netresolve_gethostbyaddr2_r`, with the result of netresolve_query_gethostbyaddr_done for a query
-- that was made; gethostbyaddr_r is the same. What a call without success leaves is not said.
unfoldable pub gethostbyaddr2_r : Option HostEnt → ℕ → ℤ × Option PlacedEntry
unfolding place_entry
gethostbyaddr2_r none buflen = (unavail, none)
gethostbyaddr2_r (some he) buflen = elim (place_entry he (record { at = 0; left = buflen })) [
  | none ↦ (tryagain, none)
  | some entry ↦ (success, some entry)
]
