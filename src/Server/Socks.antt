-- ===== src/Server/Socks.antt =====
-- The socks5 side of the server: what dust-devil/src/socks5/parsers.rs reads, what responses.rs
-- answers, and how mod.rs chooses an authentication method and connects.
pub mod Domain
pub mod Parse
pub mod Auth
pub mod Session
pub mod Laws
pub mod Served
pub mod Agree
pub mod Flow
use dust_devil.Base.{
  ℕ, ◌/◌, ◌%◌, ◌^◌, Bool, true, false, ◌&&◌, ◌||◌, not, Option, none, some, List, [], ◌∷◌, ◌++◌,
  ◌==◌, if◌then◌else◌,
}
use dust_devil.Io.{Bytes, Text, Error, ErrorKind}
use dust_devil.Io.Reader.{Reader, ◌>>=◌, pure, read_exact}
use dust_devil.Serialize.Numbers.{read_u8}
use dust_devil.Serialize.Texts.{checked_utf8}
use dust_devil.Serialize.Addresses.{SocketAddr, v4, v6}
use dust_devil.Serialize.Containers.{Result, ok, err}
use dust_devil.Protocol.Socks.{AuthMethod, no_auth, username_and_password}
use dust_devil.Protocol.Events.{
  EventData, client_attempting_connect, client_connection_attempt_bind_failed,
  client_connection_attempt_connect_failed, client_connected_to_destination,
}
use dust_devil.Server.Context.{ServerState}

abbrev pub contains : ℕ → Bytes → Bool
contains b [] = false
contains b (c ∷ bs) = (c == b) || contains b bs

unfoldable pub select_auth_method : ServerState → Bytes → Option AuthMethod
select_auth_method s methods =
    if s.no_auth_enabled && contains 0 methods
    then some no_auth
    else if s.userpass_auth_enabled && contains 2 methods
    then some username_and_password
    else none

abbrev pub method_byte : Option AuthMethod → ℕ
method_byte (some no_auth) = 0
method_byte (some username_and_password) = 2
method_byte none = 0xff

-- The bytes of `send_handshake_response`.
unfoldable pub handshake_response : Option AuthMethod → Bytes
handshake_response m = 5 ∷ method_byte m ∷ []

pub data SocksStatus : Type 0 where
  success general_failure connection_not_allowed network_unreachable host_unreachable : SocksStatus
  connection_refused command_not_supported address_type_not_supported : SocksStatus

abbrev pub status_byte : SocksStatus → ℕ
status_byte success = 0
status_byte general_failure = 1
status_byte connection_not_allowed = 2
status_byte network_unreachable = 3
status_byte host_unreachable = 4
status_byte connection_refused = 5
status_byte command_not_supported = 7
status_byte address_type_not_supported = 8

abbrev status_of_kind : ErrorKind → SocksStatus
status_of_kind ErrorKind.connection_aborted = connection_refused
status_of_kind ErrorKind.connection_refused = connection_refused
status_of_kind ErrorKind.connection_reset = connection_refused
status_of_kind ErrorKind.not_connected = network_unreachable
status_of_kind ErrorKind.permission_denied = connection_not_allowed
status_of_kind ErrorKind.timed_out = host_unreachable
status_of_kind ErrorKind.addr_not_available = address_type_not_supported
status_of_kind ErrorKind.unsupported = address_type_not_supported
status_of_kind _ = general_failure

-- `SocksStatus::from(&Error)`
unfoldable pub status_of_error : Error → SocksStatus
status_of_error e = status_of_kind e.kind

-- The address behind the status: of the bound socket, or zeroes.
abbrev bound_bytes : Option SocketAddr → Bytes
bound_bytes (some (v4 a)) = 1 ∷ a.ip ++ a.port / 256 % 256 ∷ a.port % 256 ∷ []
bound_bytes (some (v6 a)) = 4 ∷ a.ip ++ a.port / 256 % 256 ∷ a.port % 256 ∷ []
bound_bytes none = 1 ∷ 0 ∷ 0 ∷ 0 ∷ 0 ∷ 0 ∷ 0 ∷ []

-- The bytes of `send_request_response`.
unfoldable pub request_response : SocksStatus → Option SocketAddr → Bytes
request_response status bound = 5 ∷ status_byte status ∷ 0 ∷ bound_bytes bound

-- What the operating system makes of one address: no socket, no connection, or a stream.
pub data Attempt : Type 0 where
  bind_failed connect_failed : Error → Attempt
  connected : Attempt

abbrev pub or_unreachable : Option SocksStatus → SocksStatus
or_unreachable (some s) = s
or_unreachable none = host_unreachable

-- The loop of `connect_socket`, with the error of the latest address that refused, and the events.
unfoldable pub connect_loop :
    (SocketAddr → Attempt)
    → ℕ
    → Option SocksStatus
    → List EventData
    → List SocketAddr
    → Result SocketAddr SocksStatus × List EventData
connect_loop try id last events [] = (err (or_unreachable last), events)
connect_loop try id last events (a ∷ more) =
    let tried = events ++ client_attempting_connect id a ∷ [] in
    elim (try a) [
      | bind_failed e ↦
          connect_loop try id last (tried ++ client_connection_attempt_bind_failed id e ∷ []) more
      | connect_failed e ↦
          connect_loop try id (some (status_of_error e))
            (tried ++ client_connection_attempt_connect_failed id e ∷ []) more
      | connected ↦ (ok a, tried ++ client_connected_to_destination id a ∷ [])
    ]

unfoldable pub connect_socket :
    (SocketAddr → Attempt)
    → ℕ
    → List EventData
    → List SocketAddr
    → Result SocketAddr SocksStatus × List EventData
unfolding connect_loop
connect_socket try id events addresses = connect_loop try id none events addresses
