-- ===== src/Options/Examples.antt =====
-- The lemmas on options (lib/request.c) at concrete calls.
use netresolve.Prelude.{◌≡◌, refl, pos, some, List, [], ◌∷◌, ◌++◌, codes}
use netresolve.Types.{zero_request}
use netresolve.Options.{OptionKind, Setting, Value, set_option, set_options, get_option}
use netresolve.Options.RoundTrip.{get_option-last}

-- A forward query on the web service of a host, over IPv6.
abbrev names : List Setting
names = Setting.node_name (some (codes "host")) ∷ Setting.service_name (some (codes "http")) ∷ []

abbrev web : List Setting
web = Setting.family (pos 10) ∷ Setting.ip4_address (10 ∷ 0 ∷ 0 ∷ 1 ∷ []) ∷ []

get_option-last_example :
    get_option (set_options zero_request (names ++ (Setting.port (pos 80) ∷ web))).0 OptionKind.port
    ≡ some (Value.int (pos 80))
unfolding set_options set_option get_option
get_option-last_example =
    get_option-last names web (Setting.port (pos 80)) zero_request (Value.int (pos 0)) refl
      (λ e. cc) (refl, (refl, tt)) refl
