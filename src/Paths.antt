-- ===== src/Paths.antt =====
-- lib/backend.c: the path list of a response, kept in the order of destination address selection.
-- Whether a UDP socket connects to an address is the operating system's answer, and
-- NETRESOLVE_SORT_RESULTS is read from the environment: both are parameters.
mod Examples
pub mod Order
use netresolve.Prelude.{
  ℕ, ℤ, negsuc, pos, Bool, true, false, not, ◌&&◌, ◌||◌, List, [], ◌∷◌, ◌==◌, if◌then◌else◌,
}
use netresolve.Types.{Node, AddrPath}
use netresolve.Types.Af

-- `family_to_length`
pub family_to_length : ℕ → ℕ
family_to_length family = if family == Af.inet then 4 else if family == Af.inet6 then 16 else 0

-- `check_reachability`: only IPv4 and IPv6 destinations are tried
pub check_reachability : (Node → Bool) → AddrPath → AddrPath
check_reachability connects path =
    if (path.node.family == Af.inet || path.node.family == Af.inet6) && connects path.node
    then record path { node = record path.node { reachable = true } }
    else path

-- `path_cmp`
pub path_cmp : Bool → AddrPath → AddrPath → ℤ
path_cmp sort p1 p2 =
    let n1 = p1.node in
    let n2 = p2.node in
    if not sort
    then pos 0
    else if n1.reachable && not n2.reachable
    then negsuc 0
    else if not n1.reachable && n2.reachable
    then pos 1
    else if n1.family == Af.inet6 && n2.family == Af.inet
    then negsuc 0
    else if n1.family == Af.inet && n2.family == Af.inet6
    then pos 1
    else pos 0

abbrev pub is_negative : ℤ → Bool
is_negative (pos n) = false
is_negative (negsuc n) = true

-- `add_path`, its search for the place and the `memmove` that opens it: the new path goes in front
-- of the first one that it precedes, or behind all
pub insert_path : Bool → AddrPath → List AddrPath → List AddrPath
insert_path sort path [] = path ∷ []
insert_path sort path (p ∷ ps) =
    let rest = insert_path sort path ps in
    if is_negative (path_cmp sort path p) then path ∷ p ∷ ps else p ∷ rest
