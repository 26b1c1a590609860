-- ===== src/Start/Reverse.antt =====
-- What a reverse query asks for (lib/query.c, lib/compat.c).
use netresolve.Prelude.{
  ℕ, ℤ, ◌≡◌, refl, ◌⊎◌, inl, inr, true, some, List, [], ◌∷◌, arith, ◌==◌, if◌then◌else◌,
}
use netresolve.Types.{Request}
use netresolve.Types.Af
use netresolve.Options.{Setting, set_options, set_option, memcpy}
use netresolve.Start.{reverse_settings}

abbrev size_of : ℕ → ℕ
size_of family = if family == Af.inet then 4 else 16

-- The request is for the family and for just the bytes of the address, and every option is known.
abbrev pub Asks : ℕ → List ℕ → Request → List Setting → Type 0
Asks family address r s =
    ((set_options r s).0.family ≡ family)
    × ((set_options r s).0.address ≡ memcpy (size_of family) address r.address)
    × ((set_options r s).1 ≡ true)

abbrev rest : ℤ → ℤ → ℤ → List Setting
rest ifindex protocol port =
    Setting.ifindex ifindex ∷ Setting.protocol protocol ∷ Setting.port port ∷ []

module _ (address : List ℕ) (ifindex protocol port : ℤ) (r : Request) where
  Asks-ip4 : Asks Af.inet address r (Setting.ip4_address address ∷ rest ifindex protocol port)
  unfolding set_options set_option
  Asks-ip4 = (refl, refl, refl)

  Asks-ip6 : Asks Af.inet6 address r (Setting.ip6_address address ∷ rest ifindex protocol port)
  unfolding set_options set_option
  Asks-ip6 = (refl, refl, refl)

reverse_settings-cases :
    (family : ℕ) (address : List ℕ) (ifindex protocol port : ℤ) (s : List Setting)
    → reverse_settings family address ifindex protocol port ≡ some s
    → ((family ≡ Af.inet) × (s ≡ Setting.ip4_address address ∷ rest ifindex protocol port))
      ⊎ ((family ≡ Af.inet6) × (s ≡ Setting.ip6_address address ∷ rest ifindex protocol port))
unfolding reverse_settings
reverse_settings-cases family address ifindex protocol port s e = ground arith

-- If there is a reverse query at all, its options make the request one for its family and for just
-- the first 4 or 16 bytes of its address, written over those of the request; what the numbers are
-- does not matter.
pub reverse_settings-set_options :
    (family : ℕ) (address : List ℕ) (ifindex protocol port : ℤ) (s : List Setting) (r : Request)
    → reverse_settings family address ifindex protocol port ≡ some s
    → Asks family address r s
reverse_settings-set_options family address ifindex protocol port s r e =
    elim (reverse_settings-cases family address ifindex protocol port s e) [
      | inl (f, same) ↦ rw (f, same) (Asks-ip4 address ifindex protocol port r)
      | inr (f, same) ↦ rw (f, same) (Asks-ip6 address ifindex protocol port r)
    ]
