-- ===== src/Nsswitch/Packing.antt =====
-- The blocks of the caller's buffer that compat/nsswitch.c fills.
use netresolve.Prelude.{
  ℕ, ℤ, suc, ◌+◌, ◌-◌, ◌≤◌, ◌<◌, ◌≡◌, refl, ◌∙◌, ◌⊎◌, inl, inr, Option, none, some, List, [], ◌∷◌,
  CString, length, ltb, arith, Bool-cases,
}
use mathlib.Core.Path.{subst}
use netresolve.Nsswitch.{
  Buffer, append_size, buffer_append, InfoItem, InfoList, tuple_size, PlacedTuple, tuple_of,
  put_first, named_tuple, placed_tuple, place_tuples, gethostbyname4_r, success, tryagain,
}

-- The tuples stand in the buffer from an offset on up to an end, one behind the other, each with its
-- name behind it, if it has one; and they are the items, in order, with family and address.
abbrev pub Packed : ℕ → ℕ → Option CString → List InfoItem → List PlacedTuple → Type 0
Packed from end canonname [] [] = from ≤ end
Packed from end canonname [] (t ∷ ts) = ⊥
Packed from end canonname (i ∷ is) [] = ⊥
Packed from end none (i ∷ is) (t ∷ ts) =
    (t ≡ tuple_of i from none) × Packed (from + tuple_size) end none is ts
Packed from end (some name) (i ∷ is) (t ∷ ts) =
    (t ≡ tuple_of i from (some (from + tuple_size)))
    × Packed (from + tuple_size + suc (length name)) end none is ts

-- the room that the tuples take
abbrev pub room : Option CString → List InfoItem → ℕ
room canonname [] = 0
room none (i ∷ is) = tuple_size + room none is
room (some name) (i ∷ is) = tuple_size + suc (length name) + room none is

-- What the loop does: it succeeds just if there is room.
abbrev pub IsPlaced : Option CString → List InfoItem → Buffer → ℤ × List PlacedTuple → Type 0
IsPlaced canonname is b (status, ts) =
    ((status ≡ success)
      × (room canonname is ≤ b.left)
      × Packed b.at (b.at + b.left) canonname is ts)
    ⊎ ((status ≡ tryagain) × (b.left < room canonname is))

-- the buffer behind a block
abbrev pub behind : ℕ → Buffer → Buffer
behind n b = record { at = b.at + n; left = b.left - n }

-- A block of a size is put, or there is no room for it.
abbrev pub Appends : ℕ → Buffer → Option (ℕ × Buffer) → Type 0
Appends n b result =
    ((b.left < n) × (result ≡ none)) ⊎ ((n ≤ b.left) × (result ≡ some (b.at, behind n b)))

pub append_cases :
    (content : Option CString) (size : ℕ) (b : Buffer)
    → Appends (append_size content size) b (buffer_append content size b)
unfolding buffer_append
append_cases content size b = elim (Bool-cases (ltb b.left (append_size content size))) [
  | inl e ↦ inl (ground arith, rw e)
  | inr e ↦ inr (ground arith, rw e)
]

append_block : (size : ℕ) (b : Buffer) → Appends size b (buffer_append none size b)
unfolding append_size
append_block size b = append_cases none size b

append_string : (s : CString) (b : Buffer) → Appends (suc (length s)) b (buffer_append (some s) 0 b)
unfolding append_size
append_string s b = append_cases (some s) 0 b

same_end : (n : ℕ) (b : Buffer) → n ≤ b.left → b.at + n + (b.left - n) ≡ b.at + b.left
same_end n b h = omega arith

-- a tuple without a name in front of those behind
unnamed-IsPlaced :
    (i : InfoItem) (is : List InfoItem) (b : Buffer) (r : ℤ × List PlacedTuple)
    → tuple_size ≤ b.left
    → IsPlaced none is (behind tuple_size b) r
    → IsPlaced none (i ∷ is) b (put_first (tuple_of i b.at none) r)
unnamed-IsPlaced i is b (status, ts) fits (inl (ok, enough, packed)) = inl (
  ok,
  omega arith,
  (
    refl,
    subst (λ end. Packed (b.at + tuple_size) end none is ts) (same_end tuple_size b fits) packed,
  ),
)
unnamed-IsPlaced i is b (status, ts) fits (inr (again, less)) = inr (again, omega arith)

-- a tuple with its name behind it
named-IsPlaced :
    (i : InfoItem) (is : List InfoItem) (name : CString) (b : Buffer) (r : ℤ × List PlacedTuple)
    → tuple_size ≤ b.left
    → suc (length name) ≤ b.left - tuple_size
    → IsPlaced none is (behind (suc (length name)) (behind tuple_size b)) r
    → IsPlaced (some name) (i ∷ is) b (put_first (tuple_of i b.at (some (b.at + tuple_size))) r)
named-IsPlaced i is name b (status, ts) fits fits_name (inl (ok, enough, packed)) = inl (
  ok,
  omega arith,
  (
    refl,
    subst (λ end. Packed (b.at + tuple_size + suc (length name)) end none is ts)
        (same_end (suc (length name)) (behind tuple_size b) fits_name ∙ same_end tuple_size b fits)
        packed,
  ),
)
named-IsPlaced i is name b (status, ts) fits fits_name (inr (again, less)) =
    inr (again, omega arith)

no_room : (n size m : ℕ) → n < size → n < size + m
no_room n size m h = omega arith

place_unnamed : (is : List InfoItem) (b : Buffer) → IsPlaced none is b (place_tuples none is b)
unfolding place_tuples placed_tuple
place_unnamed [] b = inl (refl, omega arith, omega arith)
place_unnamed (i ∷ is) b = elim (append_block tuple_size b) [
  | inl (less, e) ↦ rw e (inr (refl, no_room b.left tuple_size (room none is) less))
  | inr (fits, e) ↦ rw e (unnamed-IsPlaced i is b _ fits (place_unnamed is (behind tuple_size b)))
]

-- the name of the first tuple does not fit behind it
no_name_room : (n size name m : ℕ) → size ≤ n → n - size < suc name → n < size + suc name + m
no_name_room n size name m fits h = omega arith

no_first_room : (n size name m : ℕ) → n < size → n < size + suc name + m
no_first_room n size name m h = omega arith

place_tuples-IsPlaced :
    (canonname : Option CString) (is : List InfoItem) (b : Buffer)
    → IsPlaced canonname is b (place_tuples canonname is b)
unfolding place_tuples placed_tuple named_tuple
place_tuples-IsPlaced none is b = place_unnamed is b
place_tuples-IsPlaced (some name) [] b = inl (refl, omega arith, omega arith)
place_tuples-IsPlaced (some name) (i ∷ is) b = elim (append_block tuple_size b) [
  | inl (less, e) ↦
      rw e (inr (refl, no_first_room b.left tuple_size (length name) (room none is) less))
  | inr (fits, e) ↦ rw e (elim (append_string name (behind tuple_size b)) [
    | inl (less, k) ↦
        rw k (inr (refl, no_name_room b.left tuple_size (length name) (room none is) fits less))
    | inr (fits_name, k) ↦ rw k (
        named-IsPlaced i is name b _ fits fits_name
          (place_unnamed is (behind (suc (length name)) (behind tuple_size b))))
  ])
]

-- For every list that the look-up gives and every size of the buffer, `gethostbyname4_r` succeeds just
-- if the buffer has room for a tuple for each item and the canonical name, and otherwise asks to try
-- again with a larger one. If it succeeds, the tuples stand in the buffer one behind the other, the
-- name behind the first, up to the end of the buffer at most, and they are the items, in order.
pub gethostbyname4_r-IsPlaced :
    (l : InfoList) (buflen : ℕ)
    → IsPlaced l.canonname l.items
        (record { at = 0; left = buflen })
        (gethostbyname4_r (some l) buflen)
unfolding gethostbyname4_r
gethostbyname4_r-IsPlaced l buflen = place_tuples-IsPlaced l.canonname l.items _
