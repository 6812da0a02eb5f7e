-- ===== src/Client/Program/Laws.antt =====
-- A command line of the client (sandstorm/src/client.rs) and what the server makes of it.
use dust_devil.Base.{
  ℕ, ◌<◌, ◌≡◌, refl, ◌∙◌, append-nil, Bool, true, false, Option, none, some, List, [], ◌∷◌, length,
  length-map, map, All, arith,
}
use dust_devil.Io.{Text, Bytes, Error, Outcome, ok}
use dust_devil.Io.Reader.{◌>>=◌, take_byte, pure}
use dust_devil.Io.Writer.{write_all}
use dust_devil.Serialize.Addresses.{SocketAddr}
use dust_devil.Serialize.Containers.{Result}
use dust_devil.Serialize.Numbers.{write_u8, write_enum, read_u8, read_enum}
use dust_devil.Protocol.Requests.{Request}
use dust_devil.Protocol.Requests.Laws.{IsRequest}
use dust_devil.Protocol.Handshake.{write_status, read_status}
use dust_devil.Protocol.Handshake.Laws.{IsHandshake}
use dust_devil.Server.Context.{manager_login}
use dust_devil.Server.Sandstorm.{Session, handle_sandstorm_inner, handshake_status, log_in}
use dust_devil.Server.Sandstorm.Laws.{run_commands, handle_sandstorm_inner_runs}
use dust_devil.Client.{initial_handlers}
use dust_devil.Client.Args.{
  CommandRequest, StartupArguments, ArgumentsRequest, no_arguments, fill_empty_fields_with_defaults,
}
use dust_devil.Client.Args.Users.{is_empty, parse_into_user}
use dust_devil.Client.Args.Options.{Variable}
use dust_devil.Client.Args.Parse.{Flag, parse_arguments}
use dust_devil.Client.Args.Order.{Names, Asks, parse_arguments-Asks}
use dust_devil.Client.Requests.{request_of_command, handle_requests_order}
use dust_devil.Client.Program.{handshake_of, requests_behind, requests_sent, run_client_inner}

-- What the server answers to a login.
abbrev pub answer : Option Bool → Bytes
answer login = (write_status (handshake_status login) []).1

-- Requests, where the login is that of an administrator.
abbrev pub allowed : Option Bool → List Request → List Request
allowed (some true) rs = rs
allowed _ rs = []

requests_sent-allowed :
    (a : StartupArguments) (login : Option Bool) (entered : List Request)
    → a.output_logs ≡ false
    → a.interactive ≡ false
    → requests_sent a (answer login) entered ≡ allowed login (map request_of_command a.requests)
unfolding requests_sent requests_behind write_status write_enum write_u8 write_all read_status
    read_enum read_u8 take_byte ◌>>=◌ pure
requests_sent-allowed a (some true) entered o i =
    rw (o, i) (append-nil _ ∙ handle_requests_order a.requests 0 initial_handlers)
requests_sent-allowed a (some false) entered o i = refl
requests_sent-allowed a none entered o i = refl

allowed-All :
    (P : Request → Type 0) (login : Option Bool) (rs : List Request)
    → All P rs
    → All P (allowed login rs)
allowed-All P (some true) rs h = h
allowed-All P (some false) rs h = tt
allowed-All P none rs h = tt

allowed_bound :
    (login : Option Bool) (rs : List Request) (n : ℕ)
    → length rs < n
    → length (allowed login rs) < n
allowed_bound (some true) rs n h = h
allowed_bound (some false) rs n h = omega (arith, h)
allowed_bound none rs n h = omega (arith, h)

-- The server, over what a client writes whose administrator, or whose other user, is logged in.
abbrev pub session_of : (a : StartupArguments) → Session → Bytes × Outcome Unit × Session
session_of a s =
    let login = manager_login a.login_credentials.0 a.login_credentials.1 s.world in
    (
      answer login,
      ok tt,
      run_commands (allowed login (map request_of_command a.requests))
          (log_in (handshake_of a) login s),
    )

client_runs :
    (a : StartupArguments) (entered : List Request) (fuel : ℕ) (s : Session)
    → a.output_logs ≡ false
    → a.interactive ≡ false
    → IsHandshake (handshake_of a)
    → All IsRequest (map request_of_command a.requests)
    → length a.requests < fuel
    → handle_sandstorm_inner fuel
        ((run_client_inner a
            (answer (manager_login a.login_credentials.0 a.login_credentials.1 s.world))
            entered)
          []).1
        s
      ≡ some (session_of a s)
unfolding run_client_inner
client_runs a entered fuel s o i v rs b =
    let login = manager_login a.login_credentials.0 a.login_credentials.1 s.world in
    let wanted = map request_of_command a.requests in
    rw (requests_sent-allowed a login entered o i) (
      (handle_sandstorm_inner_runs (handshake_of a) (allowed login wanted) fuel s v
        (allowed-All IsRequest login wanted rs)
        (allowed_bound login wanted fuel
          (omega (arith, b, length-map request_of_command a.requests)))).1)

module _ (is_alphanumeric : ℕ → Bool) (resolve : Text → Result (List SocketAddr) Error)
    (variable : Variable) where
  -- A command line with credentials and then words that ask for requests is accepted, and the server, over
  -- what the client then writes to it, whatever the terminal interface would ask for, answers the handshake as the client has taken it, and runs these
  -- requests in the order of the words where the login is that of an administrator, and none where it is
  -- not; the name, the password and the requests are short enough to be written, and there is a unit of fuel
  -- for each request and one.
  pub command_line_runs :
      (program c arg name password : Text) (ws : List Text) (qs : List CommandRequest)
      (entered : List Request) (fuel : ℕ) (s : Session)
      → Names c Flag.credentials
      → parse_into_user is_alphanumeric arg ≡ Result.ok (name, some password, none)
      → is_empty name ≡ false
      → Asks is_alphanumeric resolve ws qs
      → IsHandshake (record { username = name; password = password })
      → All IsRequest (map request_of_command qs)
      → length qs < fuel
      → (a : StartupArguments) × (parse_arguments is_alphanumeric resolve variable
            (program ∷ c ∷ arg ∷ ws)
          ≡ Result.ok (ArgumentsRequest.run a))
        × (a.requests ≡ qs)
        × (handle_sandstorm_inner fuel
              ((run_client_inner a (answer (manager_login name password s.world)) entered) []).1
              s
            ≡ some (
              answer (manager_login name password s.world),
              ok tt,
              run_commands
                  (allowed (manager_login name password s.world) (map request_of_command qs))
                  (log_in
                    (record { username = name; password = password })
                    (manager_login name password s.world)
                    s),
            ))
  unfolding fill_empty_fields_with_defaults
  command_line_runs program c arg name password ws qs entered fuel s n e k h v rs b =
      let a =
        fill_empty_fields_with_defaults
          (record no_arguments { login_credentials = (name, password); requests = qs }) in
      (
        a,
        parse_arguments-Asks is_alphanumeric resolve variable program c arg name password ws qs n e
            k h,
        refl,
        client_runs a entered fuel s refl refl v rs b,
      )
