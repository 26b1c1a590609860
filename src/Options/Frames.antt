-- ===== src/Options/Frames.antt =====
-- What setting options leaves alone (lib/request.c).
use netresolve.Prelude.{
  ◌≡◌, refl, ◌∙◌, inl, inr, Bool, true, false, some, List, [], ◌∷◌, ◌++◌, arith, All, Option-cases,
}
use netresolve.Types.{Request}
use netresolve.Options.{OptionKind, Setting, set_option, set_options, get_option}

-- Whether setting `s` may change what reading `k` returns: the option itself, and for an address the
-- family and both views of the address buffer.
abbrev pub touches : Setting → OptionKind → Bool
touches (Setting.default_loopback b) OptionKind.default_loopback = true
touches (Setting.dns_srv_lookup b) OptionKind.dns_srv_lookup = true
touches (Setting.node_name s) OptionKind.node_name = true
touches (Setting.service_name s) OptionKind.service_name = true
touches (Setting.family i) OptionKind.family = true
touches (Setting.socktype i) OptionKind.socktype = true
touches (Setting.protocol i) OptionKind.protocol = true
touches (Setting.ifindex i) OptionKind.ifindex = true
touches (Setting.ip4_address a) OptionKind.family = true
touches (Setting.ip4_address a) OptionKind.ip4_address = true
touches (Setting.ip4_address a) OptionKind.ip6_address = true
touches (Setting.ip6_address a) OptionKind.family = true
touches (Setting.ip6_address a) OptionKind.ip4_address = true
touches (Setting.ip6_address a) OptionKind.ip6_address = true
touches (Setting.port i) OptionKind.port = true
touches (Setting.dns_name s) OptionKind.dns_name = true
touches (Setting.dns_class i) OptionKind.dns_class = true
touches (Setting.dns_type i) OptionKind.dns_type = true
touches _ _ = false

get_option-set_option :
    (r r' : Request) (s : Setting) (k : OptionKind)
    → touches s k ≡ false
    → set_option r s ≡ some r'
    → get_option r' k ≡ get_option r k
unfolding set_option get_option
get_option-set_option r r' s OptionKind.node_name h e = ground arith
get_option-set_option r r' s _ h e = ground arith

-- Reading an option that none of the settings touches returns what it returned before, whether the
-- settings were all known or setting stopped at an unknown one.
pub get_option-set_options :
    (l : List Setting) (r : Request) (k : OptionKind)
    → All (λ s. touches s k ≡ false) l
    → get_option (set_options r l).0 k ≡ get_option r k
unfolding set_options
get_option-set_options [] r k h = refl
get_option-set_options (s ∷ l) r k (hs, hl) = elim (Option-cases (set_option r s)) [
  | inl e ↦ rw (e, set_options)
  | inr (r', e) ↦
      rw (e, set_options) (get_option-set_options l r' k hl ∙ get_option-set_option r r' s k hs e)
]

-- Settings in two calls do what they do in one, if the first call succeeds.
pub set_options-append :
    (l m : List Setting) (r : Request)
    → (set_options r l).1 ≡ true
    → set_options r (l ++ m) ≡ set_options (set_options r l).0 m
unfolding set_options
set_options-append [] m r h = refl
set_options-append (s ∷ l) m r h = elim (Option-cases (set_option r s)) [
  | inl e ↦ absurd (ground arith)
  | inr (r', e) ↦ rw (e, set_options) (set_options-append l m r' (rw (e, set_options) at h))
]
