-- ===== src/Server/Sandstorm.antt =====
-- The sandstorm side of the server: dust-devil/src/sandstorm/{mod, messaging, request_handler}.rs.
-- Requests are read one after the other and run on the shared state. What is answered goes to a
-- channel, and what the main loop has to do goes to another; both keep the order.
pub mod Laws
pub mod Invariant
use dust_devil.Base.{
  ℕ, zero, suc, Bool, true, false, ◌&&◌, not, Option, none, some, List, [], ◌∷◌, ◌++◌,
  if◌then◌else◌,
}
use dust_devil.Io.{Bytes, Text, Error, ErrorKind, Outcome, ok, eof, err}
use dust_devil.Io.Writer.{Writer}
use dust_devil.Serialize.Addresses.{SocketAddr}
use dust_devil.Protocol.Users.{UserRole}
use dust_devil.Protocol.Socks.{AuthMethod}
use dust_devil.Protocol.Results.{AddUserResponse, UpdateUserResponse, DeleteUserResponse}
use dust_devil.Protocol.Events.{
  sandstorm_requested_shutdown, new_socks_socket_requested_by_manager,
  remove_socks_socket_requested_by_manager, new_sandstorm_socket_requested_by_manager,
  remove_sandstorm_socket_requested_by_manager, sandstorm_requested_unsupported_version,
  sandstorm_authenticated_as,
}
use dust_devil.Protocol.Commands.{SandstormCommandType, read_command}
use dust_devil.Protocol.Requests.{Request, request_of}
use dust_devil.Protocol.Handshake.{
  SandstormHandshake, VersionChecked, handshake, invalid_version, read_with_version_check,
  SandstormHandshakeStatus, granted, unsupported_version, invalid_username_or_password,
  permission_denied, write_status,
}
use dust_devil.Server.Users.{take_snapshot}
use dust_devil.Server.Context
use dust_devil.Server.Context.{World, log, manager_login, get_auth_methods}

-- What the main loop is asked to do (messaging.rs), in the order of the requests.
pub data MessageType : Type 0 where
  shutdown_request list_socks5_sockets list_sandstorm_sockets : MessageType
  add_socks5_socket remove_socks5_socket add_sandstorm_socket remove_sandstorm_socket :
      SocketAddr → MessageType

-- What is to be answered (sandstorm/messaging.rs). Where the source holds a `Receiver`, the answer
-- is that to the message sent with it.
pub data ResponseNotification : Type 0 where
  shutdown : ResponseNotification
  log_event_config : Bool → ResponseNotification
  list_socks5_sockets add_socks5_socket remove_socks5_socket : ResponseNotification
  list_sandstorm_sockets add_sandstorm_socket remove_sandstorm_socket : ResponseNotification
  list_users : List (Text × UserRole) → ResponseNotification
  add_user : AddUserResponse → ResponseNotification
  update_user : UpdateUserResponse → ResponseNotification
  delete_user : DeleteUserResponse → ResponseNotification
  list_auth_methods : List (AuthMethod × Bool) → ResponseNotification
  toggle_auth_method : Bool → ResponseNotification
  request_current_metrics : (has_receiver : Bool) → ResponseNotification
  get_buffer_size : ℕ → ResponseNotification
  set_buffer_size : Bool → ResponseNotification
  meow : ResponseNotification

-- A manager's session.
pub record Session : Type 0 where
  pub manager_id : ℕ
  pub world : World
  pub messages : List MessageType
  pub notifications : List ResponseNotification

abbrev notify : ResponseNotification → World → Session → Session
notify n w s = record {
  manager_id = s.manager_id;
  world = w;
  messages = s.messages;
  notifications = s.notifications ++ n ∷ [];
}

abbrev send : MessageType → ResponseNotification → World → Session → Session
send m n w s = record {
  manager_id = s.manager_id;
  world = w;
  messages = s.messages ++ m ∷ [];
  notifications = s.notifications ++ n ∷ [];
}

unfoldable pub run_command : Request → Session → Session
run_command Request.shutdown s =
    send MessageType.shutdown_request ResponseNotification.shutdown
      (log (sandstorm_requested_shutdown s.manager_id) s.world) s
run_command (Request.event_stream_config b) s =
    notify (ResponseNotification.log_event_config b) s.world s
run_command Request.list_socks5_sockets s =
    send MessageType.list_socks5_sockets ResponseNotification.list_socks5_sockets s.world s
run_command (Request.add_socks5_socket a) s =
    send (MessageType.add_socks5_socket a) ResponseNotification.add_socks5_socket
      (log (new_socks_socket_requested_by_manager s.manager_id a) s.world) s
run_command (Request.remove_socks5_socket a) s =
    send (MessageType.remove_socks5_socket a) ResponseNotification.remove_socks5_socket
      (log (remove_socks_socket_requested_by_manager s.manager_id a) s.world) s
run_command Request.list_sandstorm_sockets s =
    send MessageType.list_sandstorm_sockets ResponseNotification.list_sandstorm_sockets s.world s
run_command (Request.add_sandstorm_socket a) s =
    send (MessageType.add_sandstorm_socket a) ResponseNotification.add_sandstorm_socket
      (log (new_sandstorm_socket_requested_by_manager s.manager_id a) s.world) s
run_command (Request.remove_sandstorm_socket a) s =
    send (MessageType.remove_sandstorm_socket a) ResponseNotification.remove_sandstorm_socket
      (log (remove_sandstorm_socket_requested_by_manager s.manager_id a) s.world) s
run_command Request.list_users s =
    notify (ResponseNotification.list_users (take_snapshot s.world.state.users)) s.world s
run_command (Request.add_user u p r) s =
    let (a, w) = Context.add_user s.manager_id u p r s.world in
    notify (ResponseNotification.add_user a) w s
run_command (Request.update_user u p r) s =
    let (a, w) = Context.update_user s.manager_id u p r s.world in
    notify (ResponseNotification.update_user a) w s
run_command (Request.delete_user u) s =
    let (a, w) = Context.delete_user s.manager_id u s.world in
    notify (ResponseNotification.delete_user a) w s
run_command Request.list_auth_methods s =
    notify (ResponseNotification.list_auth_methods (get_auth_methods s.world)) s.world s
run_command (Request.toggle_auth_method m b) s =
    let (a, w) = Context.toggle_auth_method s.manager_id m b s.world in
    notify (ResponseNotification.toggle_auth_method a) w s
run_command Request.request_current_metrics s =
    notify (ResponseNotification.request_current_metrics s.world.state.has_metrics) s.world s
run_command Request.get_buffer_size s =
    notify (ResponseNotification.get_buffer_size s.world.state.buffer_size) s.world s
run_command (Request.set_buffer_size n) s =
    let (a, w) = Context.set_buffer_size s.manager_id n s.world in
    notify (ResponseNotification.set_buffer_size a) w s
run_command Request.meow s = notify ResponseNotification.meow s.world s

abbrev is_eof : Error → Bool
is_eof e = elim e.kind [ ErrorKind.unexpected_eof ↦ true | _ ↦ false ]

-- The requests of a stream, until it ends or a request cannot be read. `none` where the fuel does
-- not last; each round reads a byte at least.
unfoldable pub handle_requests : ℕ → Bytes → Session → Option (Outcome (Unit {0}) × Session)
handle_requests zero src s = none
handle_requests (suc fuel) src s = elim (read_command src) [
  | ok (c, rest) ↦ elim (request_of c rest) [
    | ok (r, rest') ↦ handle_requests fuel rest' (run_command r s)
    | eof ↦ some (eof, s)
    | err e ↦ some (err e, s)
  ]
  | eof ↦ some (ok tt, s)
  | err e ↦ some (if is_eof e then ok tt else err e, s)
]

abbrev pub handshake_status : Option Bool → SandstormHandshakeStatus
handshake_status (some true) = granted
handshake_status (some false) = permission_denied
handshake_status none = invalid_username_or_password

abbrev pub log_in : SandstormHandshake → Option Bool → Session → Session
log_in h success s = record {
  manager_id = s.manager_id;
  world =
      log
        (sandstorm_authenticated_as s.manager_id h.username
          (elim success [ some b ↦ b | none ↦ false ]))
        s.world;
  messages = s.messages;
  notifications = s.notifications;
}

abbrev refuse_version : ℕ → Session → Session
refuse_version v s = record {
  manager_id = s.manager_id;
  world = log (sandstorm_requested_unsupported_version s.manager_id v) s.world;
  messages = s.messages;
  notifications = s.notifications;
}

-- `handle_sandstorm_inner`, up to the answers: the bytes of the handshake's answer, and how the
-- requests end.
unfoldable pub handle_sandstorm_inner :
    ℕ → Bytes → Session → Option (Bytes × Outcome (Unit {0}) × Session)
unfolding handle_requests
handle_sandstorm_inner fuel src s = elim (read_with_version_check src) [
  | ok (handshake h, rest) ↦
      let success = manager_login h.username h.password s.world in
      elim (handle_requests fuel rest (log_in h success s)) [
        | none ↦ none
        | some (o, s') ↦ some ((write_status (handshake_status success) []).1, o, s')
      ]
  | ok (invalid_version v, rest) ↦
      some ((write_status unsupported_version []).1, ok tt, refuse_version v s)
  | eof ↦ some ([], eof, s)
  | err e ↦ some ([], err e, s)
]
