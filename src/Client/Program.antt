-- ===== src/Client/Program.antt =====
-- sandstorm/src/client.rs: what the client writes to the server, from what the command line asks for, what
-- the server answers to the handshake, and what the terminal interface asks for; this interface is not
-- modelled and its requests are a parameter. No branch is left early by an error or a break signal.
pub mod Laws
use dust_devil.Base.{Bool, true, false, List, [], ◌∷◌, ◌++◌, if◌then◌else◌}
use dust_devil.Io.{Bytes, Outcome, ok, eof, err}
use dust_devil.Io.Writer.{Writer, ◌>>◌, done}
use dust_devil.Protocol.Requests.{Request, write_request}
use dust_devil.Protocol.Handshake.{
  SandstormHandshake, write_handshake, SandstormHandshakeStatus, granted, read_status,
}
use dust_devil.Server.Sandstorm.Laws.{write_requests}
use dust_devil.Client.{ResponseHandlers, initial_handlers}
use dust_devil.Client.Args.{StartupArguments}
use dust_devil.Client.Requests.{handle_requests}

abbrev pub handshake_of : StartupArguments → SandstormHandshake
handshake_of a = record { username = a.login_credentials.0; password = a.login_credentials.1 }

-- Whether the connection goes on behind the handshake; an error ends it.
abbrev pub is_granted : Outcome (SandstormHandshakeStatus × Bytes) → Bool
is_granted (ok (granted, rest)) = true
is_granted _ = false

-- What `handle_output` asks for, with `-o`, or `handle_interactive`, with `-i`.
unfoldable pub requests_behind : StartupArguments → (entered : List Request) → List Request
requests_behind a entered =
    if a.output_logs
    then Request.event_stream_config true ∷ []
    else if a.interactive
    then entered
    else []

-- The requests of `handle_connection`.
unfoldable pub requests_sent :
    StartupArguments → (received : Bytes) → (entered : List Request) → List Request
unfolding handle_requests read_status requests_behind
requests_sent a received entered =
    if is_granted (read_status received)
    then (handle_requests a.requests 0 initial_handlers).requests ++ requests_behind a entered
    else []

unfoldable pub run_client_inner :
    StartupArguments → (received : Bytes) → (entered : List Request) → Writer
unfolding requests_sent write_requests write_handshake
run_client_inner a received entered =
    write_handshake (handshake_of a) >> write_requests (requests_sent a received entered)
