-- ===== src/Dns/Answers.antt =====
-- backends/dns.c: what an answer adds to the query, and how the query ends.
use netresolve.Prelude.{
  ℕ, ℤ, zero, suc, pos, negsuc, Bool, true, false, not, ◌&&◌, Option, none, some, List, [], ◌∷◌,
  ◌++◌, CString, ◌==◌, eq_ℤ, is_nonzero, if◌then◌else◌,
}
use netresolve.Types.Af
use netresolve.Query.{Call}
use netresolve.Dns.{Server, Build, Rr, Packet, Library, Priv, type_srv, call, aborted, lookup_host}

-- the name without the dot at its end
unfoldable pub without_dot : CString → CString
without_dot [] = []
without_dot (c ∷ []) = if c == b'.' then [] else c ∷ []
without_dot (c ∷ d ∷ cs) = c ∷ without_dot (d ∷ cs)

-- `set_name`; on an empty string the code reads the byte in front of it
unfoldable pub set_name : CString → Priv → Priv
set_name name p = call (Call.add_name_info (some (without_dot name)) none) p

-- `apply_address`
unfoldable pub apply_address : Server → ℕ → List ℕ → ℕ → Priv → Priv
apply_address server family address ttl p =
    record (call
      (Call.add_path family address (pos 0) 0 p.protocol (pos server.port) (pos server.priority)
        (pos server.weight) (pos ttl))
      p) { answered = true }

-- `apply_srv`; `calloc` is taken to succeed
unfoldable pub apply_srv : Library → ℕ → ℕ → ℕ → CString → Priv → Priv
apply_srv lib priority weight port name p =
    let server : Server = record {
      priority = priority;
      weight = weight;
      port = port;
      name = some name;
    } in
    lookup_host lib server (set_name name (record p { servers = p.servers ++ server ∷ [] }))

-- `apply_record` with `apply_name`
unfoldable pub apply_record : Library → Server → Rr → Priv → Priv
apply_record lib server (Rr.cname name) p = set_name name p
apply_record lib server (Rr.ptr name) p = record (set_name name p) { answered = true }
apply_record lib server (Rr.a address ttl) p = apply_address server Af.inet address ttl p
apply_record lib server (Rr.aaaa address ttl) p = apply_address server Af.inet6 address ttl p
apply_record lib server (Rr.srv priority weight port name) p =
    apply_srv lib priority weight port name p
apply_record lib server (Rr.other type) p = p

-- the loop of `apply_answer`
unfoldable pub apply_records : Library → Server → List Rr → Priv → Priv
apply_records lib server [] p = p
apply_records lib server (rr ∷ rrs) p = apply_records lib server rrs (apply_record lib server rr p)

abbrev is_empty : List Rr → Bool
is_empty [] = true
is_empty (rr ∷ rrs) = false

-- LDNS_RCODE_NXDOMAIN
abbrev pub nxdomain : ℕ
nxdomain = 3

-- the code of an answer without records is fixed up
unfoldable pub rcode_of : Packet → ℕ
rcode_of packet = if packet.rcode == 0 && is_empty packet.answer then nxdomain else packet.rcode

-- the test of the bit AD; only libunbound's build sets `validate`
unfoldable pub check_ad : Packet → Priv → Priv
check_ad packet p = if not p.validate && not packet.ad then record p { secure = false } else p

-- the name that was not found: the server of an SRV query is the name itself
unfoldable pub not_found : Library → Packet → Priv → Priv
not_found lib packet p =
    if eq_ℤ packet.question type_srv then lookup_host lib p.srv p else record p { failed = true }

-- the `switch` on the code
unfoldable pub apply_rcode : Library → Server → Packet → ℕ → Priv → Priv
apply_rcode lib server packet rcode p =
    if rcode == 0
    then apply_records lib server packet.answer p
    else if rcode == nxdomain
    then not_found lib packet p
    else record p { failed = true }

unfoldable pub apply_packet : Library → Server → Option Packet → Priv → Priv
apply_packet lib server none p = record p { failed = true }
apply_packet lib server (some packet) p =
    apply_rcode lib server packet (rcode_of packet) (check_ad packet p)

-- `apply_answer`
unfoldable pub apply_answer : Library → Server → List ℕ → Priv → Priv
apply_answer lib server [] p = aborted p
apply_answer lib server (byte ∷ bytes) p =
    if is_nonzero p.type
    then record (call (Call.set_dns_answer (byte ∷ bytes)) p) { answered = true }
    else apply_packet lib server (lib.parse (byte ∷ bytes)) p

-- whether the query has finished, when nothing is pending
abbrev pub succeeded : Build → Priv → Bool
succeeded Build.avahi p = p.answered
succeeded _ p = not p.failed

-- `check` on whether the answer is secure
unfoldable pub secured : Bool → Priv → Priv
secured true p = call Call.set_secure p
secured false p = p

-- `check` on whether the query has succeeded
unfoldable pub end_with : Bool → Priv → Priv
end_with true p = call Call.finished p
end_with false p = call Call.failed p

-- `check` when nothing is pending
unfoldable pub settle : Build → Priv → Priv
settle build p = end_with (succeeded build p) (secured (p.answered && p.secure) p)

-- `check` on the number of pending look-ups
unfoldable pub check_pending : Build → ℤ → Priv → Priv
check_pending build (negsuc n) p = aborted p
check_pending build (pos (suc n)) p = p
check_pending build (pos zero) p = settle build p

-- `check`
unfoldable pub check : Build → Priv → Priv
check build p = check_pending build p.pending p
