-- ===== src/TextOutput/Examples.antt =====
-- The text of a response with one path.
use mathlib.Core.Option
use netresolve.Prelude.{pos, negsuc, ◌≡◌, refl, true, none, some, List, [], ◌∷◌, codes, CString}
use netresolve.Types.{State, AddrPath, zero_request, zero_response, zero_socket}
use netresolve.Types.Af
use netresolve.Types.Sock
use netresolve.Types.Ipproto
use netresolve.Query.{zero_query, Query}
use netresolve.TextOutput.{
  TextEnv, Buffer, request_pieces, get_request_string, response_pieces, get_response_string,
}
use netresolve.TextOutput.Bounds.{Holds, get_response_string-Holds}

abbrev env : TextEnv
env = record {
  inet_ntop = λ family address. codes "192.0.2.1";
  if_indextoname = λ ifindex. none;
  package_name = codes "netresolve";
  version = codes "0";
}

abbrev path : AddrPath
path = record {
  node = record {
    family = Af.inet;
    address = 192 ∷ 0 ∷ 2 ∷ 1 ∷ [];
    ifindex = pos 2;
    reachable = true;
  };
  service = record { socktype = Sock.stream; protocol = Ipproto.tcp; port = pos 80 };
  priority = pos 10;
  weight = pos 0;
  ttl = pos 60;
  socket = zero_socket;
}

abbrev answered : Query
answered = record zero_query {
  state = State.done;
  request = record zero_request { nodename = some (codes "host"); clamp_ttl = negsuc 0 };
  response = record zero_response { paths = path ∷ []; dns_answer = some (171 ∷ 1 ∷ []) };
  callback = true;
}

abbrev text_of : Buffer → CString
text_of b = b.text

abbrev expected : CString
expected =
    codes "response netresolve 0\nname host\nip 192.0.2.1%2 stream tcp 80 10 0 60\ndns 2 0xab01\n\n"

response_text : Option.map text_of (get_response_string env answered) ≡ some expected
unfolding get_response_string
response_text = refl

get_response_string-Holds_example :
    ((pieces : List CString) × (b : Buffer) × (response_pieces env answered ≡ some pieces)
      × (get_response_string env answered ≡ some b)
      × Holds pieces b)
    × Holds (request_pieces env answered) (get_request_string env answered)
get_response_string-Holds_example = get_response_string-Holds env answered
