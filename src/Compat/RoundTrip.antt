-- ===== src/Compat/RoundTrip.antt =====
-- The answer of a query as addrinfo, and back through lib/backend.c.
use netresolve.Prelude.{
  ℕ, ℤ, pos, negsuc, zero, suc, ◌≢◌, ◌||◌, ◌<◌, ◌≡◌, refl, sym, ap, ◌∙◌, ◌⊎◌, inl, inr, Bool, true,
  false, some, List, [], ◌∷◌, ◌++◌, map, foldl, arith, All, length, take, ◌==◌, ◌&&◌, if◌then◌else◌,
  ◌%◌,
}
use netresolve.Types.{AddrPath}
use netresolve.Types.Af
use netresolve.Query.{Query, Call}
use netresolve.Results.{AddrInfo, Status, addrinfo_call, addrinfo_calls, apply_addrinfo}
use netresolve.Start.{get_count, get_node_name}
use netresolve.Compat.{
  done_status, AddrInfoResult, addrinfo_of, min_ttl, int32_max, first_name, getaddrinfo_done,
  uint16, uint32,
}
use netresolve.Compat.Items.{
  From-all, shown_ttls, sockaddr_of, addresses, addrinfo_from-addresses, foldl-IsLeast, IsLeast,
}

-- What `netresolve_query_getaddrinfo_done` makes of the items.
abbrev result : Query → List AddrInfo → AddrInfoResult
result q items = record {
  status = done_status items;
  items = items;
  canonname = first_name items (get_node_name q);
  ttl = foldl min_ttl int32_max (shown_ttls q);
}

getaddrinfo_done-some :
    (q : Query) (items : List AddrInfo)
    → addresses q.response.paths ≡ some items
    → getaddrinfo_done q ≡ some (result q items)
unfolding getaddrinfo_done get_count
getaddrinfo_done-some q items e =
    let loop = addrinfo_from-addresses q 0 int32_max q.response.paths (From-all q.response.paths) in
    rw (loop, e) refl

take-length : (xs : List ℕ) → take (length xs) xs ≡ xs
take-length [] = refl
take-length (x ∷ xs) = ap (x ∷◌) (take-length xs)

take-all : (n : ℕ) (xs : List ℕ) → length xs ≡ n → take n xs ≡ xs
take-all n xs h = ap (λ k. take k xs) (sym h) ∙ take-length xs

uint32-pos : (z : ℤ) (n : ℕ) → z ≡ pos n → n < 4294967296 → pos (uint32 z) ≡ z
uint32-pos z n e h = let small : n % 4294967296 ≡ n = ground arith in rw (e, small) refl

-- A path to an Internet address of the right length, with a port and an interface that fit.
abbrev pub IsPlain : AddrPath → Type 0
IsPlain p =
    ((n : ℕ) × (p.service.port ≡ pos n) × (n < 65536))
    × (((p.node.family ≡ Af.inet) × (length p.node.address ≡ 4))
        ⊎ ((p.node.family ≡ Af.inet6)
            × (length p.node.address ≡ 16)
            × ((k : ℕ) × (p.node.ifindex ≡ pos k) × (k < 4294967296))))

-- The call that adds a path again; only a link-local address keeps its interface.
abbrev pub path_call : (List ℕ → Bool) → ℤ → AddrPath → Call
path_call linklocal ttl p =
    Call.add_path p.node.family p.node.address
      (if p.node.family == Af.inet6 && linklocal p.node.address then p.node.ifindex else pos 0)
      p.service.socktype p.service.protocol p.service.port (pos 0) (pos 0) ttl

uint16-pos : (z : ℤ) (n : ℕ) → z ≡ pos n → n < 65536 → pos (uint16 z) ≡ z
uint16-pos z n e h = let small : n % 65536 ≡ n = ground arith in rw (e, small) refl

abbrev item : ℕ → List ℕ → AddrPath → AddrInfo
item scope address p = record {
  family = p.node.family;
  socktype = p.service.socktype;
  protocol = p.service.protocol;
  address = address;
  scope = scope;
  port = uint16 p.service.port;
}

path_call-item :
    (linklocal : List ℕ → Bool) (ttl : ℤ) (p : AddrPath)
    → IsPlain p
    → (item : AddrInfo) × (sockaddr_of p ≡ some item)
      × (addrinfo_call linklocal ttl item ≡ path_call linklocal ttl p)
unfolding addrinfo_of addrinfo_call
path_call-item linklocal ttl p ((n, port, small), inl (family, len)) =
    let four : (p.node.family == Af.inet) ≡ true = ground arith in
    let not_six : (p.node.family == Af.inet6) ≡ false = ground arith in
    let call : (List ℕ → ℤ) → List ℕ → Call = λ scope a.
      Call.add_path p.node.family a (scope a) p.service.socktype p.service.protocol p.service.port
        (pos 0) (pos 0) ttl in
    let whole = take-all 4 p.node.address len in
    let same = uint16-pos p.service.port n port small in
    (
      item 0 p.node.address p,
      rw (four, addrinfo_of) (ap (λ a. some (item 0 a p)) whole),
      rw (four, not_six, same, addrinfo_call) (ap (call (λ a. pos 0)) whole),
    )
path_call-item linklocal ttl p ((n, port, small), inr (family, len, (k, ifindex, fits))) =
    let scope = uint32-pos p.node.ifindex k ifindex fits in
    let not_four : (p.node.family == Af.inet) ≡ false = ground arith in
    let six : (p.node.family == Af.inet6) ≡ true = ground arith in
    let call : (List ℕ → ℤ) → List ℕ → Call = λ scope a.
      Call.add_path p.node.family a (scope a) p.service.socktype p.service.protocol p.service.port
        (pos 0) (pos 0) ttl in
    let whole = take-all 16 p.node.address len in
    let same = uint16-pos p.service.port n port small in
    (
      item (uint32 p.node.ifindex) p.node.address p,
      rw (not_four, six, addrinfo_of) (ap (λ a. some (item (uint32 p.node.ifindex) a p)) whole),
      rw (not_four, six, same, scope, addrinfo_call)
          (ap (call (λ a. if linklocal a then p.node.ifindex else pos 0)) whole),
    )

addresses-calls :
    (linklocal : List ℕ → Bool) (ttl : ℤ) (ps : List AddrPath)
    → All IsPlain ps
    → (items : List AddrInfo) × (addresses ps ≡ some items)
      × (addrinfo_calls linklocal ttl items ≡ map (path_call linklocal ttl) ps)
unfolding addrinfo_calls
addresses-calls linklocal ttl [] h = ([], refl, refl)
addresses-calls linklocal ttl (p ∷ ps) (hp, h) =
    let (item, e, same) = path_call-item linklocal ttl p hp in
    let (items, es, sames) = addresses-calls linklocal ttl ps h in
    (item ∷ items, rw (e, es) refl, cc (same, sames))

-- What a status of getaddrinfo is to a backend: EAI_NONAME and EAI_NODATA are that nothing was found.
abbrev pub status_of : ℤ → Status
status_of (pos zero) = Status.success
status_of (pos (suc n)) = Status.other
status_of (negsuc n) = if n == 1 || n == 4 then Status.nothing else Status.other

applied :
    (linklocal : List ℕ → Bool) (ttl : ℤ) (items : List AddrInfo)
    → apply_addrinfo linklocal (status_of (done_status items)) items ttl
      ≡ addrinfo_calls linklocal ttl items ++ Call.finished ∷ []
unfolding apply_addrinfo addrinfo_calls done_status
applied linklocal ttl [] = refl
applied linklocal ttl (item ∷ items) = refl

-- Where there is a path there is an item.
status-some :
    (linklocal : List ℕ → Bool) (ttl : ℤ) (ps : List AddrPath) (items : List AddrInfo)
    → addrinfo_calls linklocal ttl items ≡ map (path_call linklocal ttl) ps
    → ps ≢ []
    → done_status items ≡ pos 0
unfolding done_status addrinfo_calls
status-some linklocal ttl [] items e some_path = absurd (some_path refl)
status-some linklocal ttl (p ∷ ps) [] e some_path = cc
status-some linklocal ttl (p ∷ ps) (item ∷ items) e some_path = refl

-- If every path of a query is to an Internet address of the right length, with a port and an interface
-- that fit, then `netresolve_query_getaddrinfo_done` returns, with 0 if there is a path, and a backend
-- that applies what it returned and stored adds the same nodes and services in the same order and then
-- finishes, also if there is no path; only a link-local address keeps its interface. The ttl is the
-- least of those shown for the paths and of INT32_MAX.
pub getaddrinfo_done-apply_addrinfo :
    (linklocal : List ℕ → Bool) (q : Query)
    → All IsPlain q.response.paths
    → (r : AddrInfoResult) × (getaddrinfo_done q ≡ some r)
      × (q.response.paths ≢ [] → r.status ≡ pos 0)
      × (apply_addrinfo linklocal (status_of r.status) r.items r.ttl
          ≡ map (path_call linklocal r.ttl) q.response.paths ++ Call.finished ∷ [])
      × IsLeast (int32_max ∷ shown_ttls q) r.ttl
getaddrinfo_done-apply_addrinfo linklocal q h =
    let ttl = foldl min_ttl int32_max (shown_ttls q) in
    let (items, e, same) = addresses-calls linklocal ttl q.response.paths h in
    (
      result q items,
      getaddrinfo_done-some q items e,
      status-some linklocal ttl q.response.paths items same,
      applied linklocal ttl items ∙ ap (λ cs. cs ++ Call.finished ∷ []) same,
      foldl-IsLeast int32_max (shown_ttls q),
    )
