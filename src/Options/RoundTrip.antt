-- ===== src/Options/RoundTrip.antt =====
-- Options that are set and read back (lib/request.c).
use netresolve.Prelude.{
  ℕ, ◌≢◌, Option-cases, inl, inr, ℤ, pos, suc, ◌≡◌, ◌∙◌, true, false, none, some, List, ◌∷◌, ◌++◌,
  arith, All,
}
use netresolve.Types.{Request}
use netresolve.Options.{
  OptionKind, Setting, Value, kind, memcpy, set_option, set_options, get_option,
}
use netresolve.Options.Frames.{touches, get_option-set_options, set_options-append}

-- A number replaces the old value only if it is positive.
abbrev positive_or : Value → ℤ → Value
positive_or old (pos (suc n)) = Value.int (pos (suc n))
positive_or old _ = old

-- An address replaces the first bytes of the buffer.
abbrev overlay : Value → (List ℕ → List ℕ) → Value
overlay (Value.memory old) f = Value.memory (f old)
overlay old f = old

-- What the option reads as after the setting, given what it read as before.
abbrev pub updated : Value → Setting → Value
updated old (Setting.default_loopback b) = Value.bool b
updated old (Setting.dns_srv_lookup b) = Value.bool b
updated old (Setting.node_name s) = Value.string s
updated old (Setting.service_name s) = Value.string s
updated old (Setting.family i) = positive_or old i
updated old (Setting.socktype i) = positive_or old i
updated old (Setting.protocol i) = positive_or old i
updated old (Setting.ifindex i) = positive_or old i
updated old (Setting.ip4_address a) = overlay old (λ b. memcpy 4 a b)
updated old (Setting.ip6_address a) = overlay old (λ b. memcpy 16 a b)
updated old (Setting.port i) = positive_or old i
updated old (Setting.dns_name s) = Value.string s
updated old (Setting.dns_class i) = Value.int i
updated old (Setting.dns_type i) = Value.int i
updated old Setting.unknown = old

get_option-kind :
    (r r' : Request) (s : Setting) (v : Value)
    → set_option r s ≡ some r'
    → get_option r (kind s) ≡ some v
    → get_option r' (kind s) ≡ some (updated v s)
unfolding set_option get_option
get_option-kind r r' (Setting.node_name x) v e g = ground arith
get_option-kind r r' _ v e g = ground arith

set_option-none : (r : Request) (s : Setting) → set_option r s ≡ none → kind s ≡ OptionKind.unknown
unfolding set_option
set_option-none r (Setting.node_name x) e = ground arith
set_option-none r _ e = ground arith

set_options-cons :
    (r r' : Request) (s : Setting) (m : List Setting)
    → set_option r s ≡ some r'
    → set_options r (s ∷ m) ≡ set_options r' m
unfolding set_options
set_options-cons r r' s m e = rw (e, set_options)

-- After a call whose settings are all known, an option reads as its last setting left it: the
-- argument, or the old value where a number is not positive, or the address over the old bytes.
pub get_option-last :
    (l m : List Setting) (s : Setting) (r : Request) (v : Value)
    → (set_options r l).1 ≡ true
    → kind s ≢ OptionKind.unknown
    → All (λ x. touches x (kind s) ≡ false) m
    → get_option (set_options r l).0 (kind s) ≡ some v
    → get_option (set_options r (l ++ s ∷ m)).0 (kind s) ≡ some (updated v s)
get_option-last l m s r v known real untouched old =
    let r₁ = (set_options r l).0 in
    elim (Option-cases (set_option r₁ s)) [
      | inl e ↦ absurd (real (set_option-none r₁ s e))
      | inr (r₂, e) ↦
          rw (set_options-append l (s ∷ m) r known, set_options-cons r₁ r₂ s m e)
            (get_option-set_options m r₂ (kind s) untouched ∙ get_option-kind r₁ r₂ s v e old)
    ]
