-- ===== src/Service/Capacity.antt =====
-- What `read_services` of lib/service.c leaves in the list, whatever the file holds.
use mathlib.Core.Path.{subst}
use netresolve.Prelude.{
  ℕ, ℤ, pos, suc, zero, ◌≤◌, ◌≡◌, ◌≢◌, refl, true, Option, none, some, List, [], ◌∷◌, ◌++◌, arith,
  All, All-append, Bool-cases, Option-cases, inl, inr, CString, length, length-append, ◌==◌, ==_iff,
  is_nonzero, is_some,
}
use netresolve.Libc.{c_str, strtok, strtol, to_int}
use netresolve.Service.{
  ServiceRecord, ServiceList, Loop, add_service, add_aliases, read_protocol, read_port,
  read_service, scan, resume, after_read, read_loop, read_services, close_list, mark_end,
  empty_list, protocol_from_string, token_of, is_blank, is_slash,
}

-- A record that stands for a service: it has a name, a port and a protocol.
abbrev pub IsService : ServiceRecord → Type 0
IsService r = (is_some r.name ≡ true) × (is_nonzero r.port ≡ true) × (r.protocol ≢ 0)

-- The records are services, and they fit into the array.
pub record IsValid (s : ServiceList) : Type 0 where
  pub fits : length s.items ≤ s.reserved
  pub services : All IsService s.items

add_service-IsValid :
    (s : ServiceList) (protocol : ℕ) (port : ℤ) (name : CString)
    → is_nonzero port ≡ true
    → protocol ≢ 0
    → IsValid s
    → IsValid (add_service s protocol port (some name))
unfolding add_service
add_service-IsValid s protocol port name hp hq h = record {
  fits = ground (
    arith,
    h.fits,
    length-append s.items (record { protocol = protocol; port = port; name = some name } ∷ []),
  );
  services = All-append IsService s.items _ h.services ((refl, hp, hq), tt);
}

add_aliases-IsValid :
    (f : ℕ) (s : ServiceList) (protocol : ℕ) (port : ℤ) (text : CString)
    → is_nonzero port ≡ true
    → protocol ≢ 0
    → IsValid s
    → IsValid (add_aliases f s protocol port text)
unfolding add_aliases
add_aliases-IsValid zero s protocol port text hp hq h = h
add_aliases-IsValid (suc f) s protocol port text hp hq h =
    elim (Option-cases (strtok is_blank text)) [
      | inl e ↦ rw (e, add_aliases) h
      | inr ((alias, rest), e) ↦
          rw (e, add_aliases)
            (add_aliases-IsValid f _ protocol port rest hp hq
              (add_service-IsValid s protocol port alias hp hq h))
    ]

read_protocol-IsValid :
    (s : ServiceList) (name : CString) (port : ℤ) (text : CString)
    → is_nonzero port ≡ true
    → IsValid s
    → IsValid (read_protocol s name port text)
unfolding read_protocol
read_protocol-IsValid s name port text hp h =
    let protocol = protocol_from_string (token_of (strtok is_blank text)) in
    elim (Bool-cases (protocol == 0)) [
      | inl e ↦ rw e h
      | inr e ↦
          let known : protocol ≢ 0 = ground (arith, ==_iff protocol 0) in
          rw e (
            add_aliases-IsValid (length text) _ protocol port _ hp known
              (add_service-IsValid s protocol port name hp known h))
    ]

-- The list in a result, if there is one, is valid.
abbrev Holds : Option ServiceList → Type 0
Holds none = Unit
Holds (some s) = IsValid s

read_port-IsValid :
    (s : ServiceList) (name : CString) (t : Option (CString × CString))
    → IsValid s
    → Holds (read_port s name t)
unfolding read_port
read_port-IsValid s name none h = tt
read_port-IsValid s name (some (number, rest)) h =
    elim (Bool-cases (is_nonzero (to_int (strtol number).0))) [
      | inl e ↦ rw e (read_protocol-IsValid s name _ rest e h)
      | inr e ↦ rw e h
    ]

read_service-IsValid : (s : ServiceList) (line : CString) → IsValid s → Holds (read_service s line)
unfolding read_service
read_service-IsValid s line h = elim (Option-cases (strtok is_blank line)) [
  | inl e ↦ rw (e, read_service) h
  | inr ((name, rest), e) ↦ rw (e, read_service) (read_port-IsValid s name (strtok is_slash rest) h)
]

abbrev HoldsLeft : Option (ServiceList × List ℕ) → Type 0
HoldsLeft none = Unit
HoldsLeft (some (s, left)) = IsValid s

scan-IsValid : (xs seen : List ℕ) (s : ServiceList) → IsValid s → HoldsLeft (scan s seen xs)
unfolding scan
scan-IsValid [] seen s h = h
scan-IsValid (c ∷ xs) seen s h = elim (Bool-cases (c == b'\n')) [
  | inl n ↦ elim (Option-cases (read_service s (c_str seen))) [
    | inl r ↦ rw (n, scan, r) tt
    | inr (s', r) ↦
        rw (n, scan, r) (scan-IsValid xs [] s' (rw r at (read_service-IsValid s (c_str seen) h)))
  ]
  | inr n ↦ rw (n, scan) (scan-IsValid xs _ s h)
]

resume-IsValid :
    (loop : Loop) (file : List ℕ) (r : Option (ServiceList × List ℕ))
    → ((s : ServiceList) (b f : List ℕ) → IsValid s → Holds (loop s b f))
    → HoldsLeft r
    → Holds (resume loop file r)
unfolding resume
resume-IsValid loop file none keep h = tt
resume-IsValid loop file (some (s, b)) keep h = keep s b file h

after_read-IsValid :
    (loop : Loop) (s : ServiceList) (buffer chunk file : List ℕ)
    → ((s : ServiceList) (b f : List ℕ) → IsValid s → Holds (loop s b f))
    → IsValid s
    → Holds (after_read loop s buffer chunk file)
unfolding after_read
after_read-IsValid loop s buffer [] file keep h = h
after_read-IsValid loop s buffer (c ∷ cs) file keep h =
    resume-IsValid loop file _ keep (scan-IsValid (buffer ++ c ∷ cs) [] s h)

read_loop-IsValid :
    (sizes : List ℕ) (s : ServiceList) (b f : List ℕ) → IsValid s → Holds (read_loop sizes s b f)
unfolding read_loop
read_loop-IsValid [] s b f h = h
read_loop-IsValid (k ∷ sizes) s b f h =
    after_read-IsValid (read_loop sizes) s b _ _ (read_loop-IsValid sizes) h

-- Services in front of the one record with no name, in an array of just their number.
abbrev pub IsClosed : ServiceList → Type 0
IsClosed s =
    (items : List ServiceRecord) × (s.items
      ≡ items ++ record { protocol = 0; port = pos 0; name = none } ∷ [])
    × All IsService items
    × (s.reserved ≡ length s.items)

close_list-IsClosed :
    (r : Option ServiceList) (list : ServiceList)
    → Holds r
    → close_list r ≡ some list
    → IsClosed list
unfolding close_list mark_end add_service
close_list-IsClosed none list h e = cc
close_list-IsClosed (some s) list h e =
    let same : mark_end s ≡ list = cc in subst IsClosed same (s.items, refl, h.services, refl)

-- Whatever the file holds and however it is cut into pieces, the list that reading returns is a
-- sequence of services, each with a name, a nonzero port and a known protocol, behind which stands
-- the end mark on which every loop over the list stops; the array has room for just these.
pub read_services-IsClosed :
    (sizes file : List ℕ) (list : ServiceList)
    → read_services sizes file ≡ some list
    → IsClosed list
unfolding read_services
read_services-IsClosed sizes file list e =
    close_list-IsClosed (read_loop sizes empty_list [] file) list
      (read_loop-IsValid sizes empty_list [] file (omega arith)) e
