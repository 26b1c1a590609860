-- ===== src/Service/Queries.antt =====
-- What `netresolve_service_list_query` of lib/service.c reports.
use netresolve.Prelude.{
  ℕ, ℤ, pos, ◌≡◌, ◌≢◌, refl, ◌⊎◌, true, false, Option, none, some, List, [], ◌∷◌, arith, All,
  All-append, Bool-cases, Option-cases, inl, inr, CString, ◌==◌, is_nonzero, negsuc, eq_ℤ,
}
use netresolve.Libc.{strtol, to_int}
use netresolve.Service.{Protocol, protocols, ServiceRecord, ServiceList, read_services}
use netresolve.Service.Search.{
  Found, skips, found_in, found_port, selects, search_list, query_list, service_list_query,
}
use netresolve.Service.Capacity.{IsService, IsClosed, read_services-IsClosed}
use netresolve.Types.Sock
use netresolve.Types.Ipproto

-- A report agrees with what was asked for; zero asks for anything.
abbrev pub Agrees : ℕ → ℕ → ℤ → Found → Type 0
Agrees socktype protocol port f =
    ((socktype ≡ 0) ⊎ (f.socktype ≡ socktype))
    × ((protocol ≡ 0) ⊎ (f.protocol ≡ protocol))
    × ((is_nonzero port ≡ false) ⊎ (f.port ≡ port))

kept-Agrees :
    (p : Protocol) (name : Option CString) (socktype proto : ℕ) (port : ℤ)
    → skips socktype proto p ≡ false
    → Agrees socktype proto port
        (record { name = name; socktype = p.socktype; protocol = p.protocol; port = port })
unfolding skips
kept-Agrees p name socktype proto port h = (ground arith, ground arith, inr refl)

found_in-Agrees :
    (ps : List Protocol) (name : Option CString) (socktype proto : ℕ) (port : ℤ)
    → All (Agrees socktype proto port) (found_in ps name socktype proto port)
unfolding found_in
found_in-Agrees [] name socktype proto port = tt
found_in-Agrees (p ∷ ps) name socktype proto port =
    let rest = found_in-Agrees ps name socktype proto port in
    elim (Bool-cases (skips socktype proto p)) [
      | inl e ↦ rw e rest
      | inr e ↦ rw e (kept-Agrees p name socktype proto port e, rest)
    ]

found_port-Agrees :
    (name : Option CString) (socktype proto : ℕ) (port : ℤ)
    → All (Agrees socktype proto port) (found_port name socktype proto port)
unfolding found_port
found_port-Agrees name socktype proto port = found_in-Agrees protocols name socktype proto port

eq_ℤ→eq : (a b : ℤ) → eq_ℤ a b ≡ true → a ≡ b
eq_ℤ→eq (pos a) (pos b) h = ground arith
eq_ℤ→eq (pos a) (negsuc b) h = cc
eq_ℤ→eq (negsuc a) (pos b) h = cc
eq_ℤ→eq (negsuc a) (negsuc b) h = ground arith

module _ (name : Option CString) (protocol : ℕ) (port : ℤ) (s : ServiceRecord)
    (selected : selects name protocol port s ≡ true) where
  selected_protocol : (protocol ≡ 0) ⊎ (s.protocol ≡ protocol)
  unfolding selects
  selected_protocol = ground arith

  selected_port : (is_nonzero port ≡ false) ⊎ (s.port ≡ port)
  unfolding selects
  selected_port = ground (arith, eq_ℤ→eq port s.port)

-- What is reported for a record that was selected agrees with the query.
Agrees-selected :
    (name : Option CString) (socktype protocol : ℕ) (port : ℤ) (s : ServiceRecord) (fs : List Found)
    → selects name protocol port s ≡ true
    → s.protocol ≢ 0
    → All (Agrees socktype s.protocol s.port) fs
    → All (Agrees socktype protocol port) fs
Agrees-selected name socktype protocol port s [] sel known h = tt
Agrees-selected name socktype protocol port s (f ∷ fs) sel known ((ht, hp, hq), h) = (
  (
    ht,
    ground (arith, selected_protocol name protocol port s sel),
    ground (arith, selected_port name protocol port s sel),
  ),
  Agrees-selected name socktype protocol port s fs sel known h,
)

List-cases : (xs : List ℕ) → (xs ≡ []) ⊎ ((c : ℕ) × (cs : List ℕ) × (xs ≡ c ∷ cs))
List-cases [] = inl refl
List-cases (c ∷ cs) = inr (c, cs, refl)

-- A record is the end mark, or its protocol is known.
abbrev IsListed : ServiceRecord → Type 0
IsListed s = (s.name ≡ none) ⊎ (s.protocol ≢ 0)

search_list-Agrees :
    (items : List ServiceRecord) (name : Option CString) (socktype protocol : ℕ) (port : ℤ)
    → All IsListed items
    → All (Agrees socktype protocol port) (search_list items name socktype protocol port).1
unfolding search_list
search_list-Agrees [] name socktype protocol port h = tt
search_list-Agrees (s ∷ ss) name socktype protocol port (h, hs) = elim (Option-cases s.name) [
  | inl e ↦ rw (e, search_list) tt
  | inr (stored, e) ↦
      let rest = search_list-Agrees ss name socktype protocol port hs in
      elim (Bool-cases (selects name protocol port s)) [
        | inr no_match ↦ rw (e, search_list, no_match) rest
        | inl match ↦
            let known : s.protocol ≢ 0 = ground arith in
            rw (e, search_list, match)
              (All-append _ _ _
                (Agrees-selected name socktype protocol port s _ match known
                  (found_port-Agrees _ socktype s.protocol s.port))
                rest)
      ]
]

query_list-Agrees :
    (items : List ServiceRecord) (name : Option CString) (socktype protocol : ℕ) (port : ℤ)
    → All IsListed items
    → All (Agrees socktype protocol port) (query_list items name socktype protocol port)
unfolding query_list
query_list-Agrees items name socktype protocol port h =
    elim (Bool-cases ((search_list items name socktype protocol port).0 == 0)) [
      | inl e ↦ rw e (found_port-Agrees _ socktype protocol port)
      | inr e ↦ rw e (search_list-Agrees items name socktype protocol port h)
    ]

IsService-IsListed : (items : List ServiceRecord) → All IsService items → All IsListed items
IsService-IsListed [] h = tt
IsService-IsListed (s ∷ ss) ((hn, hp, hq), hs) = (inr hq, IsService-IsListed ss hs)

IsClosed-IsListed : (list : ServiceList) → IsClosed list → All IsListed list.items
IsClosed-IsListed list (items, split, h, room) =
    rw split (All-append IsListed items _ (IsService-IsListed items h) (inl refl, tt))

Agrees-any_port :
    (socktype protocol : ℕ) (port p : ℤ) (fs : List Found)
    → is_nonzero port ≡ false
    → All (Agrees socktype protocol p) fs
    → All (Agrees socktype protocol port) fs
Agrees-any_port socktype protocol port p [] e h = tt
Agrees-any_port socktype protocol port p (f ∷ fs) e ((ht, hp, hq), h) =
    ((ht, hp, inl e), Agrees-any_port socktype protocol port p fs e h)

query :
    (items : List ServiceRecord) (name : Option CString) (socktype protocol : ℕ) (port : ℤ)
    → All IsListed items
    → All (Agrees socktype protocol port) (service_list_query items name socktype protocol port)
unfolding service_list_query
query items none socktype protocol port h = query_list-Agrees items none socktype protocol port h
query items (some name) socktype protocol port h = elim (Bool-cases (is_nonzero port)) [
  | inl e ↦
      rw (e, service_list_query) (query_list-Agrees items (some name) socktype protocol port h)
  | inr e ↦ elim (List-cases (strtol name).1) [
    | inl r ↦
        rw (e, service_list_query, r)
          (Agrees-any_port socktype protocol port _ _ e
            (found_port-Agrees _ socktype protocol (to_int (strtol name).0)))
    | inr (c, cs, r) ↦
        rw (e, service_list_query, r)
          (Agrees-any_port socktype protocol port _ _ e
            (query_list-Agrees items _ socktype protocol (to_int (strtol name).0) h))
  ]
]

-- Whatever a query on a list that was read from a file reports has the socket type, the protocol and
-- the port that were asked for, where these are not zero, on every path through the function.
pub service_list_query-Agrees :
    (sizes file : List ℕ) (list : ServiceList) (name : Option CString) (socktype protocol : ℕ)
    (port : ℤ)
    → read_services sizes file ≡ some list
    → All
        (Agrees socktype protocol port)
        (service_list_query list.items name socktype protocol port)
service_list_query-Agrees sizes file list name socktype protocol port e =
    query list.items name socktype protocol port
      (IsClosed-IsListed list (read_services-IsClosed sizes file list e))

-- A numeric service name needs no list: with no socket type and no protocol asked for, it stands for
-- that port over TCP, over UDP and on a raw socket, in this order.
pub service_list_query-numeric :
    (items : List ServiceRecord) (name : CString)
    → (strtol name).1 ≡ []
    → service_list_query items (some name) 0 0 (pos 0)
      ≡ record {
        name = some name;
        socktype = Sock.stream;
        protocol = Ipproto.tcp;
        port = to_int (strtol name).0;
      }
        ∷ record {
          name = some name;
          socktype = Sock.dgram;
          protocol = Ipproto.udp;
          port = to_int (strtol name).0;
        }
        ∷ record {
          name = some name;
          socktype = Sock.raw;
          protocol = 0;
          port = to_int (strtol name).0;
        }
        ∷ []
unfolding service_list_query found_port
service_list_query-numeric items name e = rw (e, service_list_query)
