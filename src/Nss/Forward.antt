-- ===== src/Nss/Forward.antt =====
-- backends/nss.c: the look-up by the best function that a plugin has.
use netresolve.Prelude.{
  ℕ, ℤ, pos, Bool, ◌||◌, Option, none, some, List, [], ◌∷◌, ◌++◌, CString, ◌==◌, eq_ℤ,
  if◌then◌else◌,
}
use netresolve.Types.{Request}
use netresolve.Types.Af
use netresolve.Query.{Call}
use netresolve.Output.{get_nodename}
use netresolve.Results.{ServiceArgs, apply_addrinfo, apply_addrtuple, apply_hostent}
use netresolve.Nss.{
  notfound, success, combine_statuses, get_addrinfo_hints, TupleResult, HostResult, InfoFunction,
  TupleFunction, FamilyFunction, HostFunction, Handle, Plugin, initialize,
}

unfoldable pub no_service : ℤ → ServiceArgs
no_service ttl = record {
  socktype = 0;
  protocol = 0;
  port = pos 0;
  priority = pos 0;
  weight = pos 0;
  ttl = ttl;
}

-- a look-up for one family, if the request is for it; `status` is set to NSS_STATUS_NOTFOUND first
unfoldable pub for_family : ℕ → ℕ → FamilyFunction → CString → Option HostResult
for_family wanted family f node =
    if wanted == family || wanted == Af.unspec then some (f node family) else none

abbrev pub status_of : Option HostResult → ℤ
status_of none = notfound
status_of (some r) = r.status

abbrev pub name_of : Option HostResult → Option CString
name_of none = none
name_of (some r) = if eq_ℤ r.status success then r.canonical else none

abbrev pub ttl_of : Option HostResult → ℤ
ttl_of none = pos 0
ttl_of (some r) = r.ttl

-- the canonical name, that of the IPv6 look-up first
unfoldable pub canonical_calls : Option CString → Option CString → List Call
canonical_calls (some name) name4 = Call.set_canonical_name name ∷ []
canonical_calls none (some name) = Call.set_canonical_name name ∷ []
canonical_calls none none = []

-- a host entry, if its look-up succeeded
unfoldable pub host_if : Option HostResult → ℤ → List Call
host_if none ttl = []
host_if (some r) ttl = if eq_ℤ r.status success then apply_hostent r.host (no_service ttl) else []

-- The branch of `query_forward` on gethostbyname3_r or gethostbyname2_r: the code hands the entry of
-- each family the TTL of the other.
unfoldable pub combined_calls : Option HostResult → Option HostResult → List Call
combined_calls r4 r6 =
    if eq_ℤ (combine_statuses (status_of r4) (status_of r6)) success
    then canonical_calls (name_of r6) (name_of r4)
      ++ (host_if r6 (ttl_of r4) ++ (host_if r4 (ttl_of r6) ++ Call.finished ∷ []))
    else Call.failed ∷ []

unfoldable pub family_calls : FamilyFunction → ℕ → CString → List Call
family_calls f wanted node =
    combined_calls (for_family wanted Af.inet f node) (for_family wanted Af.inet6 f node)

-- gethostbyname2_r has neither a TTL nor a canonical name
unfoldable pub without_extras : FamilyFunction → FamilyFunction
without_extras f node family = record (f node family) { ttl = pos 0; canonical = none }

-- the branch on gethostbyname_r
unfoldable pub host_calls : HostResult → List Call
host_calls r =
    if eq_ℤ r.status success
    then apply_hostent r.host (no_service (pos 0)) ++ Call.finished ∷ []
    else Call.failed ∷ []

-- the result of gethostbyname4_r
unfoldable pub tuple_result_calls : TupleResult → List Call
tuple_result_calls r = apply_addrtuple (eq_ℤ r.status success) r.items r.ttl

-- the branches of `query_forward` on gethostbyname3_r, gethostbyname2_r and gethostbyname_r
unfoldable pub host_branch :
    Option FamilyFunction → Option FamilyFunction → Option HostFunction → ℕ → CString → List Call
host_branch (some f) f2 f1 wanted node = family_calls f wanted node
host_branch none (some f) f1 wanted node = family_calls (without_extras f) wanted node
host_branch none none (some f) wanted node = host_calls (f node)
host_branch none none none wanted node = Call.failed ∷ []

-- the branch on gethostbyname4_r; `rest` are those behind
unfoldable pub tuple_branch : Option TupleFunction → ℕ → CString → List Call → List Call
tuple_branch none wanted node rest = rest
tuple_branch (some f) wanted node rest =
    if wanted == Af.unspec then tuple_result_calls (f node) else rest

-- the branches that want the name of a node
unfoldable pub name_branch : Plugin → ℕ → Option CString → List Call
name_branch p wanted none = Call.failed ∷ []
name_branch p wanted (some node) =
    tuple_branch p.gethostbyname4_r wanted node
      (host_branch p.gethostbyname3_r p.gethostbyname2_r p.gethostbyname_r wanted node)

-- the branch on getaddrinfo
unfoldable pub info_branch : (List ℕ → Bool) → Request → Option InfoFunction → List Call → List Call
info_branch linklocal r none rest = rest
info_branch linklocal r (some f) rest =
    let result = f (get_nodename r) r.servname (get_addrinfo_hints r) in
    apply_addrinfo linklocal result.status result.items result.ttl

-- the branches of `query_forward`
unfoldable pub plugin_calls : (List ℕ → Bool) → Request → Option Plugin → List Call
plugin_calls linklocal r none = Call.failed ∷ []
plugin_calls linklocal r (some p) =
    info_branch linklocal r p.getaddrinfo (name_branch p r.family (get_nodename r))

-- `query_forward`
unfoldable pub query_forward :
    (CString → Option Handle) → (List ℕ → Bool) → List CString → Request → List Call
query_forward dlopen linklocal settings r = plugin_calls linklocal r (initialize dlopen settings)
