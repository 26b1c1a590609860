-- ===== src/Service/Examples.antt =====
-- The list of services (lib/service.c) at a concrete file.
use netresolve.Prelude.{
  ℕ, ◌≡◌, refl, pos, none, some, List, [], ◌∷◌, ◌++◌, codes, CString, All, arith,
}
use netresolve.Libc.{strtol, strtok, to_int}
use netresolve.Types.Ipproto
use netresolve.Service.{
  ServiceList, mark_end, read_services, close_list, empty_list, read_service, add_service,
  protocol_from_string,
}
use netresolve.Service.Search.{service_list_query}
use netresolve.Service.Reading.{read_services-read_lines}
use netresolve.Service.Scanning.{read_lines, complete_lines}
use netresolve.Service.Capacity.{IsClosed, read_services-IsClosed}
use netresolve.Service.Queries.{Agrees, service_list_query-Agrees}

-- A line with a comment and an alias, and one without its end.
abbrev file : CString
file = codes "ssh 22/tcp s #x" ++ b'\n' ∷ codes "d 9/udp"

abbrev sizes : List ℕ
sizes =
    5 ∷ 5 ∷ 5 ∷ 5 ∷ 5 ∷ 5 ∷ 5 ∷ 5 ∷ 5 ∷ 5 ∷ 5 ∷ 5 ∷ 5 ∷ 5 ∷ 5 ∷ 5 ∷ 5 ∷ 5 ∷ 5 ∷ 5 ∷ 5 ∷ 5 ∷ 5 ∷ 5
    ∷ 5 ∷ []

read_services-read_lines_example :
    read_services sizes file ≡ close_list (read_lines empty_list (complete_lines [] file))
read_services-read_lines_example =
    read_services-read_lines sizes file (omega arith) (omega arith) (omega arith)

-- What is read from it: the service, its alias and the end mark.
abbrev list : ServiceList
list = record {
  items =
      record { protocol = Ipproto.tcp; port = pos 22; name = some (codes "ssh") }
      ∷ record { protocol = Ipproto.tcp; port = pos 22; name = some (codes "s") }
      ∷ record { protocol = 0; port = pos 0; name = none }
      ∷ [];
  reserved = 3;
}

read_list : read_services sizes file ≡ some list
unfolding read_services mark_end read_service add_service strtol strtok to_int protocol_from_string
read_list = refl

read_services-IsClosed_example : IsClosed list
read_services-IsClosed_example = read_services-IsClosed sizes file list read_list

service_list_query-Agrees_example :
    All
      (Agrees 0 Ipproto.tcp (pos 0))
      (service_list_query list.items (some (codes "s")) 0 Ipproto.tcp (pos 0))
service_list_query-Agrees_example =
    service_list_query-Agrees sizes file list (some (codes "s")) 0 Ipproto.tcp (pos 0) read_list
