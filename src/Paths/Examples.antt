-- ===== src/Paths/Examples.antt =====
-- The lemmas on the path list (lib/backend.c) at a concrete list.
use mathlib.Core.List.{Perm}
use netresolve.Prelude.{◌≡◌, ℕ, pos, Bool, true, false, List, [], ◌∷◌, ◌++◌, All}
use netresolve.Types.{AddrPath, zero_socket}
use netresolve.Types.Af
use netresolve.Paths.{path_cmp, insert_path, is_negative}
use netresolve.Paths.Order.{IsSorted, Heads, insert_path_lem}

abbrev path : ℕ → Bool → AddrPath
path family reachable = record {
  node = record { family = family; address = []; ifindex = pos 0; reachable = reachable };
  service = record { socktype = 0; protocol = 0; port = pos 0 };
  priority = pos 0;
  weight = pos 0;
  ttl = pos 0;
  socket = zero_socket;
}

-- A reachable IPv4 address in front of an unreachable IPv6 one.
abbrev two : List AddrPath
two = path Af.inet true ∷ path Af.inet6 false ∷ []

two-IsSorted : IsSorted two
unfolding path_cmp
two-IsSorted = ((λ e. cc, tt), (tt, tt))

insert_path_lem_example :
    IsSorted (insert_path true (path Af.inet6 true) two)
    × Perm (insert_path true (path Af.inet6 true) two) (path Af.inet6 true ∷ two)
    × ((front back : List AddrPath) × (two ≡ front ++ back)
        × (insert_path false (path Af.inet6 true) two ≡ front ++ (path Af.inet6 true ∷ back))
        × All (λ q. is_negative (path_cmp false (path Af.inet6 true) q) ≡ false) front
        × Heads false (path Af.inet6 true) back)
insert_path_lem_example = insert_path_lem false (path Af.inet6 true) two two-IsSorted
