-- ===== src/Service/Search.antt =====
-- lib/service.c: the queries on the list of services. A callback of a query is called once for each
-- record of the list that the query returns, in order.
use netresolve.Prelude.{
  ℕ, ℤ, ◌+◌, Bool, true, false, not, ◌&&◌, ◌||◌, Option, none, some, List, [], ◌∷◌, ◌++◌, CString,
  str_eq, ◌==◌, if◌then◌else◌, is_nonzero, is_some, eq_ℤ,
}
use netresolve.Libc.{strtol, to_int, decimal}
use netresolve.Service.{Protocol, protocols, ServiceRecord}

-- What a callback is called with.
pub record Found : Type 0 where
  pub name : Option CString
  pub socktype : ℕ
  pub protocol : ℕ
  pub port : ℤ

-- whether the loop of `found_port` passes over an entry of the table
unfoldable pub skips : ℕ → ℕ → Protocol → Bool
skips socktype proto p =
    not (socktype == 0) && not (socktype == p.socktype)
    || not (proto == 0) && not (proto == p.protocol)
    || (socktype == 0 || proto == 0) && not p.defaultpair

unfoldable pub found_in : List Protocol → Option CString → ℕ → ℕ → ℤ → List Found
unfolding skips
found_in [] name socktype proto port = []
found_in (p ∷ ps) name socktype proto port =
    let rest = found_in ps name socktype proto port in
    if skips socktype proto p
    then rest
    else record { name = name; socktype = p.socktype; protocol = p.protocol; port = port } ∷ rest

-- `found_port`
unfoldable pub found_port : Option CString → ℕ → ℕ → ℤ → List Found
unfolding found_in
found_port = found_in protocols

name_differs : Option CString → Option CString → Bool
name_differs none stored = false
name_differs (some name) none = true
name_differs (some name) (some stored) = not (str_eq name stored)

-- whether a record of the list passes the conditions of `netresolve_service_list_query`
unfoldable pub selects : Option CString → ℕ → ℤ → ServiceRecord → Bool
unfolding name_differs
selects name protocol port service =
    not (name_differs name service.name)
    && (protocol == 0 || protocol == service.protocol)
    && (not (is_nonzero port) && is_some name || eq_ℤ port service.port)

-- the loop over the list, up to the end mark: how many records it selects, and the calls it makes
unfoldable pub search_list : List ServiceRecord → Option CString → ℕ → ℕ → ℤ → ℕ × List Found
unfolding selects
search_list [] name socktype protocol port = (0, [])
search_list (s ∷ ss) name socktype protocol port =
    let (count, rest) = search_list ss name socktype protocol port in
    elim s.name [
      | none ↦ (0, [])
      | some stored ↦
          if selects name protocol port s
          then (count + 1, found_port s.name socktype s.protocol s.port ++ rest)
          else (count, rest)
    ]

-- the part of the query behind the test for a number
unfoldable pub query_list : List ServiceRecord → Option CString → ℕ → ℕ → ℤ → List Found
unfolding search_list
query_list items name socktype protocol port =
    let (count, found) = search_list items name socktype protocol port in
    if count == 0
    then found_port (if is_nonzero port then some (decimal port) else none) socktype protocol port
    else found

-- `netresolve_service_list_query`, on the list that it has just read
unfoldable pub service_list_query : List ServiceRecord → Option CString → ℕ → ℕ → ℤ → List Found
unfolding query_list
service_list_query items none socktype protocol port = query_list items none socktype protocol port
service_list_query items (some name) socktype protocol port =
    let (number, rest) = strtol name in
    elim (is_nonzero port) [
      | true ↦ query_list items (some name) socktype protocol port
      | false ↦ elim rest [
        | [] ↦ found_port (some name) socktype protocol (to_int number)
        | c ∷ cs ↦ query_list items (some name) socktype protocol (to_int number)
      ]
    ]

-- whether the query reads the list of services anew: it does unless the name is a number
pub reads_list : Option CString → ℤ → Bool
reads_list none port = true
reads_list (some name) port =
    if is_nonzero port then true else elim (strtol name).1 [ [] ↦ false | c ∷ cs ↦ true ]
