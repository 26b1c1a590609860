-- ===== src/Dns/Setup.antt =====
-- backends/dns.c: the settings, the session with the library, and the questions that a request asks.
use netresolve.Prelude.{
  ℕ, pos, Bool, true, false, not, ◌&&◌, ◌||◌, Option, none, some, List, [], ◌∷◌, CString, codes,
  str_eq, take, drop, is_some, if◌then◌else◌,
}
use netresolve.Types.{Request}
use netresolve.Query.{Call}
use netresolve.Output.{get_nodename}
use netresolve.Dns.{
  Server, Build, Library, Priv, call, lookup_dns, lookup_srv, lookup_host, lookup_address,
}

-- What the library says when a session is set up: whether it gives one (`ub_ctx_create`,
-- `ares_library_init`, `avahi_client_new`), whether it takes the server, or without one its own
-- configuration (`ub_ctx_set_fwd`, `ub_ctx_resolvconf`, `ares_init_options`), whether it takes the
-- trust anchors, and its descriptor (`ub_fd`).
pub record Session : Type 0 where
  pub created : Bool
  pub configured : Option CString → Bool
  pub anchored : Bool
  pub fd : ℕ

-- What the settings of the backend say.
pub record DnsSettings : Type 0 where
  pub secure : Bool
  pub validate : Bool
  pub server : Option CString

abbrev no_settings : DnsSettings
no_settings = record { secure = false; validate = false; server = none }

-- the settings of libunbound's build only
unfoldable pub unbound_setting : Build → CString → DnsSettings → DnsSettings
unbound_setting Build.unbound setting s =
    if str_eq setting (codes "validate")
    then record s { secure = true; validate = true }
    else if str_eq (take 7 setting) (codes "server=")
    then record s { server = some (drop 7 setting) }
    else s
unbound_setting _ setting s = s

-- the loop of `setup`
unfoldable pub read_settings : Build → List CString → DnsSettings → DnsSettings
read_settings build [] s = s
read_settings build (setting ∷ settings) s = read_settings build settings (
    if str_eq setting (codes "trust")
    then record s { secure = true }
    else unbound_setting build setting s)

-- what `calloc` and `setup` leave in the state
unfoldable pub new_state : Request → DnsSettings → Priv
new_state r s = record {
  request = r;
  protocol = 0;
  family = r.family;
  address = [];
  cls = pos 0;
  type = pos 0;
  srv = record { priority = 0; weight = 0; port = 0; name = get_nodename r };
  servers = [];
  pending = pos 0;
  answered = false;
  failed = false;
  secure = s.secure;
  validate = s.validate;
  unanswered = [];
  calls = Call.new_priv true ∷ [];
  aborts = 0;
}

-- whether the library is set up
unfoldable pub opens : Build → Session → DnsSettings → Bool
opens Build.unbound session s =
    session.created && session.configured s.server && (not s.validate || session.anchored)
opens Build.ares session s = session.created && session.configured none
opens Build.avahi session s = session.created

-- the watch of libunbound's build
unfoldable pub watched : Build → Session → Priv → Priv
watched Build.unbound session p = call (Call.watch_add session.fd 0) p
watched _ session p = p

-- the end of `setup`, by whether the library is set up
unfoldable pub opened : Build → Session → Priv → Bool → Bool × Priv
opened build session p true = (true, watched build session p)
opened build session p false = (false, p)

-- `setup`: whether it succeeds, and the state
unfoldable pub setup : Library → Session → List CString → Request → Bool × Priv
setup lib session settings r =
    let s = read_settings lib.build settings no_settings in
    opened lib.build session (new_state r s) (opens lib.build session s)

-- the questions of `query_forward`
unfoldable pub ask_forward : Library → Priv → Priv
ask_forward lib p =
    if p.request.dns_srv_lookup
    then lookup_srv lib (record p { protocol = p.request.protocol })
    else lookup_host lib p.srv p

-- what the guards of `query_forward`, `query_reverse` and `query_dns` lead to
unfoldable pub ask_if : (Priv → Priv) → Bool → Priv → Priv
ask_if ask true p = ask p
ask_if ask false p = call Call.failed p

-- the guard of `query_forward` and `query_dns` in front of the questions
unfoldable pub start_named : (Priv → Priv) → Bool × Priv → Priv
start_named ask (ok, p) = ask_if ask (ok && is_some p.srv.name) p

-- `query_forward`, without the watches of the build over c-ares
unfoldable pub query_forward : Library → Session → List CString → Request → Priv
query_forward lib session settings r = start_named (ask_forward lib) (setup lib session settings r)

-- the question of `query_reverse`
unfoldable pub ask_reverse : Library → Priv → Priv
ask_reverse lib p = lookup_address lib (record p { address = p.request.address })

-- the guard of `query_reverse`, whose test of the address, an array, always succeeds
unfoldable pub start_unnamed : (Priv → Priv) → Bool × Priv → Priv
start_unnamed ask (ok, p) = ask_if ask ok p

-- `query_reverse` of the builds other than Avahi's, without the watches of the build over c-ares
unfoldable pub query_reverse : Library → Session → List CString → Request → Priv
query_reverse lib session settings r =
    start_unnamed (ask_reverse lib) (setup lib session settings r)

-- the question of `query_dns`
unfoldable pub ask_dns : Library → Priv → Priv
ask_dns lib p =
    let p' = record p { cls = p.request.dns_class; type = p.request.dns_type } in
    lookup_dns lib p'.srv p'.srv.name p'.type p'.cls p'

-- `query_dns`, without the watches of the build over c-ares
unfoldable pub query_dns : Library → Session → List CString → Request → Priv
query_dns lib session settings r = start_named (ask_dns lib) (setup lib session settings r)

-- `cleanup` removes the servers behind the first from the ring: those that it frees, in order
unfoldable pub free_servers : List Server → List (Option CString)
free_servers [] = []
free_servers (server ∷ servers) = server.name ∷ free_servers servers
