-- ===== src/Nss/Examples.antt =====
-- A plugin of backends/nss.c that is named by its file, and one that finds an address of each family.
use netresolve.Prelude.{ℕ, pos, ◌≡◌, refl, false, none, some, List, [], ◌∷◌, codes}
use netresolve.Types.{Request, zero_request}
use netresolve.Query.{Call}
use netresolve.Output.{get_nodename}
use netresolve.Results.{apply_hostent, host_calls}
use netresolve.Nss.Loading.{module_name, named, path_name, move_front, behind_slash, before_dot}
use netresolve.Nss.Loading.Names.{library_path, module_name-library}
use netresolve.Nss.{
  FamilyFunction, Handle, combine_statuses, success, initialize, loaded, api_of, find_symbols,
  try_symbol,
}
use netresolve.Nss.Forward.{
  query_forward, plugin_calls, info_branch, name_branch, tuple_branch, host_branch, family_calls,
  for_family, combined_calls, canonical_calls, host_if, no_service,
}

module_name-library_example :
    module_name (library_path (codes "/lib") (codes "files") (codes "so.2")) ≡ record {
      name = codes "files";
      filename = library_path (codes "/lib") (codes "files") (codes "so.2");
    }
module_name-library_example =
    module_name-library (codes "/lib") (codes "files") (codes "so.2") refl refl refl

-- Without a dot the end of the path stays behind the name.
undotted : (module_name (codes "/x/libnss_files")).name ≡ codes "filesbnss_files"
unfolding module_name named path_name move_front behind_slash before_dot
undotted = refl

abbrev address_of : ℕ → List ℕ
address_of family = family ∷ []

abbrev find : FamilyFunction
find node family = record {
  status = success;
  host = record { name = some node; family = family; addresses = address_of family ∷ [] };
  ttl = pos family;
  canonical = none;
}

abbrev handle : Handle
handle = record {
  info = λ symbol. none;
  tuples = λ symbol. none;
  family = λ symbol. some find;
  host = λ symbol. none;
}

abbrev request : Request
request = record zero_request { nodename = some (codes "n") }

-- Each family gets the TTL of the other.
both_families :
    query_forward
      (λ filename. some handle)
      (λ a. false)
      (codes "x" ∷ codes "gethostbyname3" ∷ [])
      request
    ≡ Call.add_path 10 (10 ∷ []) (pos 0) 0 0 (pos 0) (pos 0) (pos 0) (pos 2)
      ∷ Call.set_canonical_name (codes "n")
      ∷ Call.add_path 2 (2 ∷ []) (pos 0) 0 0 (pos 0) (pos 0) (pos 0) (pos 10)
      ∷ Call.set_canonical_name (codes "n")
      ∷ Call.finished
      ∷ []
unfolding query_forward plugin_calls initialize loaded api_of find_symbols try_symbol info_branch
    name_branch tuple_branch host_branch family_calls for_family combined_calls combine_statuses
    canonical_calls host_if no_service apply_hostent host_calls get_nodename module_name named
both_families = refl
