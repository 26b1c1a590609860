-- ===== src/Dns/Laws.antt =====
-- What an answer may do to the state of backends/dns.c, as the laws of a predicate on states.
use netresolve.Prelude.{
  if_both, ℕ, ℤ, true, false, Option, none, some, List, [], ◌∷◌, CString, ◌==◌, eq_ℤ,
}
use netresolve.Types.Af
use netresolve.Query.{Call}
use netresolve.Dns.{
  Server, Lookup, Rr, Packet, Library, Priv, type_a, type_aaaa, type_srv, class_in, call, aborted,
  increment, asked, lookup_dns, lookup_family, lookup_host,
}
use netresolve.Dns.Answers.{
  set_name, apply_address, apply_srv, apply_record, apply_records, nxdomain, rcode_of, check_ad,
  not_found, apply_rcode, apply_packet, apply_answer,
}

-- The calls that answers make on the query.
abbrev pub IsAdding : Call → Type 0
IsAdding (Call.add_path family address ifindex socktype protocol port priority weight ttl) = Unit
IsAdding (Call.add_name_info nodename servname) = Unit
IsAdding (Call.set_dns_answer answer) = Unit
IsAdding _ = ⊥

-- The steps that answers are made of.
pub record Laws (lib : Library) (P : Priv → Type 0) : Type 0 where
  pub add : (c : Call) (p : Priv) → IsAdding c → P p → P (call c p)
  pub answer : (p : Priv) → P p → P (record p { answered = true })
  pub fail : (p : Priv) → P p → P (record p { failed = true })
  pub distrust : (p : Priv) → P p → P (record p { secure = false })
  pub extend : (servers : List Server) (p : Priv) → P p → P (record p { servers = servers })
  pub abort : (p : Priv) → P p → P (aborted p)
  pub ask :
      (l : Lookup) (p : Priv)
      → P p
      → P (asked lib.build l (lib.refuses l) (record p { pending = increment p.pending }))

module _ (lib : Library) (P : Priv → Type 0) (laws : Laws lib P) where
  open laws use {add, answer, fail, distrust, extend, abort, ask}

  pub lookup_dns-keeps :
      (server : Server) (name : Option CString) (type cls : ℤ) (p : Priv)
      → P p
      → P (lookup_dns lib server name type cls p)
  unfolding lookup_dns
  lookup_dns-keeps server name type cls p h = ask _ p h

  lookup_family-keeps :
      (server : Server) (family : ℕ) (type : ℤ) (p : Priv)
      → P p
      → P (lookup_family lib server family type p)
  unfolding lookup_family
  lookup_family-keeps server family type p h =
      if_both P _ _ _ (lookup_dns-keeps server server.name type class_in p h) h

  pub lookup_host-keeps : (server : Server) (p : Priv) → P p → P (lookup_host lib server p)
  unfolding lookup_host
  lookup_host-keeps server p h =
      lookup_family-keeps server Af.inet6 type_aaaa _
        (lookup_family-keeps server Af.inet type_a p h)

  set_name-keeps : (name : CString) (p : Priv) → P p → P (set_name name p)
  unfolding set_name
  set_name-keeps name p h = add _ p tt h

  apply_address-keeps :
      (server : Server) (family : ℕ) (address : List ℕ) (ttl : ℕ) (p : Priv)
      → P p
      → P (apply_address server family address ttl p)
  unfolding apply_address
  apply_address-keeps server family address ttl p h = answer _ (add _ p tt h)

  pub apply_record-keeps :
      (server : Server) (rr : Rr) (p : Priv) → P p → P (apply_record lib server rr p)
  unfolding apply_record apply_srv
  apply_record-keeps server (Rr.cname name) p h = set_name-keeps name p h
  apply_record-keeps server (Rr.ptr name) p h = answer _ (set_name-keeps name p h)
  apply_record-keeps server (Rr.a address ttl) p h =
      apply_address-keeps server Af.inet address ttl p h
  apply_record-keeps server (Rr.aaaa address ttl) p h =
      apply_address-keeps server Af.inet6 address ttl p h
  apply_record-keeps server (Rr.srv priority weight port name) p h =
      lookup_host-keeps _ _ (set_name-keeps name _ (extend _ p h))
  apply_record-keeps server (Rr.other type) p h = h

  apply_records-keeps :
      (server : Server) (rrs : List Rr) (p : Priv) → P p → P (apply_records lib server rrs p)
  unfolding apply_records
  apply_records-keeps server [] p h = h
  apply_records-keeps server (rr ∷ rrs) p h =
      apply_records-keeps server rrs (apply_record lib server rr p)
        (apply_record-keeps server rr p h)

  apply_rcode-keeps :
      (server : Server) (packet : Packet) (rcode : ℕ) (p : Priv)
      → P p
      → P (apply_rcode lib server packet rcode p)
  unfolding apply_rcode not_found
  apply_rcode-keeps server packet rcode p h =
      if_both P (rcode == 0) _ _ (apply_records-keeps server packet.answer p h) (
        if_both P (rcode == nxdomain) _ _
          (if_both P (eq_ℤ packet.question type_srv) _ _ (lookup_host-keeps p.srv p h) (fail p h))
          (fail p h))

  apply_packet-keeps :
      (server : Server) (packet : Option Packet) (p : Priv)
      → P p
      → P (apply_packet lib server packet p)
  unfolding apply_packet check_ad
  apply_packet-keeps server none p h = fail p h
  apply_packet-keeps server (some packet) p h =
      apply_rcode-keeps server packet (rcode_of packet) _ (if_both P _ _ _ (distrust p h) h)

  -- An answer keeps a predicate with these laws.
  pub apply_answer-keeps :
      (server : Server) (bytes : List ℕ) (p : Priv) → P p → P (apply_answer lib server bytes p)
  unfolding apply_answer
  apply_answer-keeps server [] p h = abort p h
  apply_answer-keeps server (byte ∷ bytes) p h =
      if_both P _ _ _ (answer _ (add _ p tt h)) (apply_packet-keeps server _ p h)
