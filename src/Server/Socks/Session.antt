-- ===== src/Server/Socks/Session.antt =====
-- A client's connection, `handle_socks5_inner` of dust-devil/src/socks5/mod.rs, up to the relay.
use dust_devil.Base.{ℕ, Option, none, some, List, [], ◌∷◌, ◌++◌, map, if◌then◌else◌}
use dust_devil.Io.{Bytes, Text, text, Error, Outcome, ok, eof, err}
use dust_devil.Serialize.Addresses.{SocketAddr, v4, v6}
use dust_devil.Serialize.Containers.{Result}
use dust_devil.Protocol.Socks.{
  AuthMethod, no_auth, username_and_password, SocksRequestAddress, ipv4, ipv6, domainname,
}
use dust_devil.Protocol.Events.{
  EventData, client_requested_unsupported_version, client_requested_unsupported_command,
  client_requested_unsupported_atyp, client_selected_auth_method, client_no_acceptable_auth_method,
  client_dns_lookup, client_failed_to_connect_to_destination,
}
use dust_devil.Server.Context.{ServerState}
use dust_devil.Server.Socks.{
  Attempt, SocksStatus, success, select_auth_method, handshake_response, request_response,
  connect_socket,
}
use dust_devil.Server.Socks.Auth.{AuthEnd, handle_userpass_auth}
use dust_devil.Server.Socks.Parse.{
  ParseRequestError, invalid_version, unsupported_command, invalid_atyp, Parsed, parse_handshake,
  parse_request, status_of_parse_error,
}

-- What has been written to the client, and what the macros have made of events.
pub record Progress : Type 0 where
  pub answers : Bytes
  pub events : List EventData

abbrev pub say : Bytes → Progress → Progress
say bytes p = record p { answers = p.answers ++ bytes }

abbrev pub note : EventData → Progress → Progress
note e p = record p { events = p.events ++ e ∷ [] }

-- How it ends: `Ok(())` before the relay, the relay to a destination with what the client has sent behind
-- its request, or an error.
abbrev pub Ending : Type 0
Ending = Outcome (Option (SocketAddr × Bytes)) × Progress

abbrev pub set_port : ℕ → SocketAddr → SocketAddr
set_port port (v4 a) = v4 (record a { port = port })
set_port port (v6 a) = v6 (record a { port = port })

abbrev pub selected : (id : ℕ) → Option AuthMethod → EventData
selected id (some m) = client_selected_auth_method id m
selected id none = client_no_acceptable_auth_method id

abbrev refused : (id : ℕ) → ParseRequestError → EventData
refused id (invalid_version v) = client_requested_unsupported_version id v
refused id (unsupported_command c) = client_requested_unsupported_command id c
refused id (invalid_atyp t) = client_requested_unsupported_atyp id t

-- `lookup` stands for `lookup_host`, `try` for the sockets, and `local_addr` for the bound address.
module _ (id : ℕ) (try : SocketAddr → Attempt) (lookup : Text → Result (List SocketAddr) Error)
    (local_addr : SocketAddr → Option SocketAddr) where
  unfoldable pub after_connect :
      (rest : Bytes) → Bytes → Result SocketAddr SocksStatus × List EventData → Ending
  after_connect rest answers (Result.ok a, events) = (
    ok (some (a, rest)),
    record { answers = answers ++ request_response success (local_addr a); events = events },
  )
  after_connect rest answers (Result.err status, events) = (
    ok none,
    record {
      answers = answers ++ request_response status none;
      events = events ++ client_failed_to_connect_to_destination id ∷ [];
    },
  )

  unfoldable pub connect_to : (rest : Bytes) → Progress → Result (List SocketAddr) Error → Ending
  unfolding after_connect
  connect_to rest p (Result.ok addresses) =
      after_connect rest p.answers (connect_socket try id p.events addresses)
  connect_to rest p (Result.err e) = (err e, p)

  abbrev pub with_ports : ℕ → Result (List SocketAddr) Error → Result (List SocketAddr) Error
  with_ports port (Result.ok l) = Result.ok (map (set_port port) l)
  with_ports port (Result.err e) = Result.err e

  -- The addresses of a request.
  unfoldable pub destinations : SocksRequestAddress → (port : ℕ) → Result (List SocketAddr) Error
  destinations (ipv4 o) port = Result.ok (v4 (record { ip = o; port = port }) ∷ [])
  destinations (ipv6 o) port =
      Result.ok (v6 (record { ip = o; port = port; flowinfo = 0; scope_id = 0 }) ∷ [])
  destinations (domainname d) port = with_ports port (lookup (d ++ text ":0"))

  abbrev pub noted_lookup : SocksRequestAddress → Progress → Progress
  noted_lookup (domainname d) p = note (client_dns_lookup id d) p
  noted_lookup _ p = p

  unfoldable pub after_request : Progress → Parsed → Option Ending
  unfolding connect_to destinations
  after_request p none = none
  after_request p (some eof) = some (eof, p)
  after_request p (some (err e)) = some (err e, p)
  after_request p (some (ok (Result.err e, rest))) =
      some (ok none, say (request_response (status_of_parse_error e) none) (note (refused id e) p))
  after_request p (some (ok (Result.ok r, rest))) =
      some (connect_to rest (noted_lookup r.destination p) (destinations r.destination r.port))

  module _ (sizes : ℕ → ℕ) (fuel : ℕ) where
    unfoldable pub after_auth : Progress → Outcome (AuthEnd × Bytes) → Option Ending
    unfolding after_request
    after_auth p (ok (e, rest)) =
        let q = say e.answer (note e.event p) in
        if e.status then after_request q (parse_request sizes fuel rest) else some (ok none, q)
    after_auth p eof = some (eof, p)
    after_auth p (err e) = some (err e, p)

    unfoldable pub authenticate :
        ServerState → (rest : Bytes) → Progress → Option AuthMethod → Option Ending
    unfolding after_auth
    authenticate s rest p (some no_auth) = after_request p (parse_request sizes fuel rest)
    authenticate s rest p (some username_and_password) =
        after_auth p (handle_userpass_auth id s.users rest)
    authenticate s rest p none = some (ok none, p)

    unfoldable pub after_handshake :
        ServerState → Progress → Outcome (Result Bytes ℕ × Bytes) → Option Ending
    unfolding authenticate
    after_handshake s p (ok (Result.ok methods, rest)) =
        let m = select_auth_method s methods in
        authenticate s rest (say (handshake_response m) (note (selected id m) p)) m
    after_handshake s p (ok (Result.err ver, rest)) = some (
      ok none,
      say (handshake_response none) (note (client_requested_unsupported_version id ver) p),
    )
    after_handshake s p eof = some (eof, p)
    after_handshake s p (err e) = some (err e, p)

    -- `none` where the reading of a domain name is not over when the fuel is.
    unfoldable pub handle_socks5_inner : ServerState → Bytes → Option Ending
    unfolding after_handshake
    handle_socks5_inner s src =
        after_handshake s (record { answers = []; events = [] }) (parse_handshake src)
