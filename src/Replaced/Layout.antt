-- ===== src/Replaced/Layout.antt =====
-- The buffers that the functions of compat/libc.c write to.
use netresolve.Prelude.{
  ℕ, ℤ, pos, zero, suc, ◌+◌, ◌-◌, ◌*◌, ◌≤◌, ◌<◌, ◌≡◌, ◌≢◌, refl, sym, ap, ◌∙◌, Bool, true, false,
  ◌||◌, Option, none, some, List, [], ◌∷◌, ◌++◌, CString, length, length-append, All, ltb,
  is_nonzero, arith,
}
use mathlib.Core.Path.{subst}
use netresolve.Libc.{c_str}
use netresolve.Replaced.{
  NameDone, string_size, overflows, zeros, filled, fill_if, write_if, write_names, getnameinfo,
  HostEntry, HostWritten, places, address_places, write_entry, write_host, pointer_size,
  gethostbyname2_r,
}

length-zeros : (n : ℕ) → length (zeros n) ≡ n
length-zeros zero = refl
length-zeros (suc n) = ap suc (length-zeros n)

-- A string of the C library has no zero inside.
abbrev pub IsText : CString → Type 0
IsText s = All (λ c. c ≢ 0) s

c_str-zeros : (s : CString) (n : ℕ) → IsText s → c_str (s ++ zeros (suc n)) ≡ s
c_str-zeros [] n h = refl
c_str-zeros (c ∷ s) n h = ground (arith, c_str-zeros s n h.1)

-- The name that a buffer shows: none is the empty string.
abbrev pub shown : Option CString → CString
shown none = []
shown (some s) = s

abbrev pub IsName : Option CString → Type 0
IsName none = Unit
IsName (some s) = IsText s

-- What is written to a buffer: all of it, and it reads as the name.
abbrev pub Fits : Option CString → Option ℕ → Option (List ℕ) → Type 0
Fits s none written = written ≡ none
Fits s (some size) written =
    (bytes : List ℕ) × (written ≡ some bytes) × (length bytes ≡ size) × (c_str bytes ≡ shown s)

length-filled : (s : CString) (size : ℕ) → length s < size → length (filled (some s) size) ≡ size
unfolding filled
length-filled s size h =
    length-append s (zeros (size - length s)) ∙ omega (arith, length-zeros (size - length s))

c_str-none : (n : ℕ) → c_str (zeros n) ≡ []
c_str-none zero = refl
c_str-none (suc n) = refl

suc_of_less : (m n : ℕ) → m < n → n - m ≡ suc (n - m - 1)
suc_of_less m n h = omega arith

c_str-filled :
    (s : CString) (size : ℕ) → IsText s → length s < size → c_str (filled (some s) size) ≡ s
unfolding filled
c_str-filled s size h less =
    ap (λ n. c_str (s ++ zeros n)) (suc_of_less (length s) size less)
    ∙ c_str-zeros s (size - length s - 1) h

not_less : (a b : ℕ) → ltb a (suc b) ≡ false → b < a
not_less a b h = ground arith

fill_if-Fits :
    (s : Option CString) (size : Option ℕ)
    → IsName s
    → overflows s size ≡ false
    → Fits s size (fill_if s size)
unfolding fill_if overflows
fill_if-Fits s none h fits = refl
fill_if-Fits none (some size) h fits =
    (filled none size, refl, unfold filled in length-zeros size, unfold filled in c_str-none size)
fill_if-Fits (some s) (some size) h fits =
    let less = not_less size (length s) fits in
    (filled (some s) size, refl, length-filled s size less, c_str-filled s size h less)

or_false : (a b : Bool) → (a || b) ≡ false → (a ≡ false) × (b ≡ false)
or_false a b h = ground arith

nonzero_status : (n : ℤ) → is_nonzero n ≡ true → n ≢ pos 0
nonzero_status n h e = ground arith

write_if-Fits :
    (r : NameDone) (hostlen servlen : Option ℕ) (bad over : Bool)
    → is_nonzero r.status ≡ bad
    → (overflows r.host hostlen || overflows r.serv servlen) ≡ over
    → IsName r.host
    → IsName r.serv
    → (write_if r hostlen servlen bad over).status ≡ pos 0
    → Fits r.host hostlen (write_if r hostlen servlen bad over).host
      × Fits r.serv servlen (write_if r hostlen servlen bad over).serv
unfolding write_if
write_if-Fits r hostlen servlen true over e k host serv ok = absurd (nonzero_status r.status e ok)
write_if-Fits r hostlen servlen false true e k host serv ok = cc
write_if-Fits r hostlen servlen false false e k host serv ok =
    let (fits_host, fits_serv) = or_false _ _ k in
    (fill_if-Fits r.host hostlen host fits_host, fill_if-Fits r.serv servlen serv fits_serv)

-- If `getnameinfo` returns 0 for a query that was made, it has written just the bytes of the buffers
-- that it was given, and they read as the names, or as the empty string where there is none.
pub getnameinfo-Fits :
    (r : NameDone) (hostlen servlen : Option ℕ)
    → IsName r.host
    → IsName r.serv
    → (getnameinfo (some r) hostlen servlen).status ≡ pos 0
    → Fits r.host hostlen (getnameinfo (some r) hostlen servlen).host
      × Fits r.serv servlen (getnameinfo (some r) hostlen servlen).serv
unfolding getnameinfo write_names
getnameinfo-Fits r hostlen servlen host serv ok =
    write_if-Fits r hostlen servlen _ _ refl refl host serv ok

-- Two places of the same size that do not overlap, the first in front.
abbrev pub Disjoint : ℕ → List ℕ → Type 0
Disjoint size [] = Unit
Disjoint size (p ∷ ps) = All (λ q. p + size ≤ q) ps × Disjoint size ps

abbrev Between : ℕ → ℕ → ℕ → ℕ → Type 0
Between from to size p = (from ≤ p) × (p + size ≤ to)

wider :
    (from from' to to' size : ℕ) (ps : List ℕ)
    → from' ≤ from
    → to ≤ to'
    → All (Between from to size) ps
    → All (Between from' to' size) ps
wider from from' to to' size [] below above h = tt
wider from from' to to' size (p ∷ ps) below above ((low, high), rest) =
    ((omega arith, omega arith), wider from from' to to' size ps below above rest)

-- the addresses lie one behind the other
address_places-Between :
    (at size : ℕ) (addresses : List (List ℕ))
    → All (Between at (at + length addresses * size) size) (address_places at size addresses)
unfolding address_places
address_places-Between at size [] = tt
address_places-Between at size (a ∷ rest) = (
  (omega arith, grind arith),
  wider (at + size) at _ _ size _ (omega arith) (grind arith)
      (address_places-Between (at + size) size rest),
)

above : (from to size : ℕ) (ps : List ℕ) → All (Between from to size) ps → All (λ q. from ≤ q) ps
above from to size [] h = tt
above from to size (p ∷ ps) h = (h.0.0, above from to size ps h.1)

address_places-Disjoint :
    (at size : ℕ) (addresses : List (List ℕ)) → Disjoint size (address_places at size addresses)
unfolding address_places
address_places-Disjoint at size [] = tt
address_places-Disjoint at size (a ∷ rest) = (
  above (at + size) _ size _ (address_places-Between (at + size) size rest),
  address_places-Disjoint (at + size) size rest,
)

-- The parts of an entry lie in the buffer, none over another: the name, the pointers to the aliases
-- and to the addresses with a NULL behind each, and the addresses.
pub record IsLaidOut (e : HostEntry) (buflen : ℕ) (w : HostWritten) : Type 0 where
  pub name : string_size e.name ≤ w.aliases_at
  pub aliases : w.aliases_at + (e.aliases + 1) * pointer_size ≤ w.list_at
  pub list : w.list_at + (length e.addresses + 1) * pointer_size ≤ buflen
  pub count : length w.addresses_at ≡ length e.addresses
  pub addresses :
      All
        (λ p.
          (w.list_at + (length e.addresses + 1) * pointer_size ≤ p) × (p + e.address_size ≤ buflen))
        w.addresses_at
  pub disjoint : Disjoint e.address_size w.addresses_at

address_places-length :
    (at size : ℕ) (addresses : List (List ℕ))
    → length (address_places at size addresses) ≡ length addresses
unfolding address_places
address_places-length at size [] = refl
address_places-length at size (a ∷ rest) = ap suc (address_places-length (at + size) size rest)

fits_total : (a b : ℕ) → ltb a b ≡ false → b ≤ a
fits_total a b h = ground arith

write_entry-IsLaidOut :
    (e : HostEntry) (buflen : ℕ)
    → ltb buflen (places e).total ≡ false
    → IsLaidOut e buflen (write_entry e)
unfolding write_entry places
write_entry-IsLaidOut e buflen h = record {
  name = omega arith;
  aliases = omega arith;
  list = omega (arith, fits_total buflen (places e).total h);
  count = address_places-length (places e).data_at e.address_size e.addresses;
  addresses =
      wider (places e).data_at _ _ buflen e.address_size _ (omega arith)
        (omega (arith, fits_total buflen (places e).total h))
        (address_places-Between (places e).data_at e.address_size e.addresses);
  disjoint = address_places-Disjoint (places e).data_at e.address_size e.addresses;
}

abbrev written_or : HostWritten → Option HostWritten → HostWritten
written_or w none = w
written_or w (some v) = v

write_host-IsLaidOut :
    (e : HostEntry) (buflen : ℕ) (small : Bool) (status : ℤ) (w : HostWritten)
    → ltb buflen (places e).total ≡ small
    → write_host e small ≡ (status, some w)
    → (status ≡ pos 0) × IsLaidOut e buflen w
unfolding write_host
write_host-IsLaidOut e buflen true status w h k = cc
write_host-IsLaidOut e buflen false status w h k = (
  ap (λ (t : ℤ × Option HostWritten). t.0) (sym k),
  subst (IsLaidOut e buflen) (ap (λ (t : ℤ × Option HostWritten). written_or w t.1) k)
      (write_entry-IsLaidOut e buflen h),
)

abbrev returned_or :
    ℤ × Option HostWritten → Option (ℤ × Option HostWritten) → ℤ × Option HostWritten
returned_or r none = r
returned_or r (some t) = t

-- If a query finds an entry and `gethostbyname2_r` gives it, it returns 0, and the parts of the entry lie
-- in the buffer, none over another: the name, the pointers to the aliases and to the addresses with a
-- NULL behind each, also if there is no address, and a place for each address.
pub gethostbyname2_r-IsLaidOut :
    (errno : ℤ) (e : HostEntry) (buflen : ℕ) (status : ℤ) (w : HostWritten)
    → gethostbyname2_r errno (some (some e)) buflen ≡ some (status, some w)
    → (status ≡ pos 0) × IsLaidOut e buflen w
unfolding gethostbyname2_r
gethostbyname2_r-IsLaidOut errno e buflen status w h =
    write_host-IsLaidOut e buflen (ltb buflen (places e).total) status w refl
      (ap (returned_or (status, some w)) h)
