-- ===== src/Protocol/Requests.antt =====
-- The requests of dust-devil-core/src/sandstorm: each type's `write`, and the `read`s as the server
-- runs them behind the command type (dust-devil/src/sandstorm/request_handler.rs).
pub mod Laws
use dust_devil.Base.{ℕ, Bool, Option, ◌++◌}
use dust_devil.Io.{Text, text, ErrorKind, error_new}
use dust_devil.Io.Reader.{Reader, ◌>>=◌, pure, fail}
use dust_devil.Io.Writer.{Writer, ◌>>◌}
use dust_devil.Serialize.Numbers.{write_u32, read_u32, write_bool, read_bool}
use dust_devil.Serialize.Texts.{write_small_string, read_small_string}
use dust_devil.Serialize.Addresses.{SocketAddr, write_socket_addr, read_socket_addr}
use dust_devil.Serialize.Containers.{write_option, read_option}
use dust_devil.Protocol.Users.{UserRole, write_role, read_role}
use dust_devil.Protocol.Socks.{AuthMethod, write_auth_method, read_auth_method}
use dust_devil.Protocol.Commands.{SandstormCommandType, write_command, read_command}

pub data Request : Type 0 where
  shutdown : Request
  event_stream_config : Bool → Request
  list_socks5_sockets : Request
  add_socks5_socket : SocketAddr → Request
  remove_socks5_socket : SocketAddr → Request
  list_sandstorm_sockets : Request
  add_sandstorm_socket : SocketAddr → Request
  remove_sandstorm_socket : SocketAddr → Request
  list_users : Request
  add_user : Text → Text → UserRole → Request
  update_user : Text → Option Text → Option UserRole → Request
  delete_user : Text → Request
  list_auth_methods : Request
  toggle_auth_method : AuthMethod → Bool → Request
  request_current_metrics : Request
  get_buffer_size : Request
  set_buffer_size : ℕ → Request
  meow : Request

unfoldable pub write_optional_password : Option Text → Writer
write_optional_password = write_option write_small_string

unfoldable pub read_optional_password : Reader (Option Text)
read_optional_password = read_option read_small_string

unfoldable pub write_optional_role : Option UserRole → Writer
write_optional_role = write_option write_role

unfoldable pub read_optional_role : Reader (Option UserRole)
read_optional_role = read_option read_role

abbrev pub write_shutdown_request : Writer
write_shutdown_request = write_command SandstormCommandType.shutdown

abbrev pub write_event_stream_config_request : Bool → Writer
write_event_stream_config_request b = do
  write_command SandstormCommandType.event_stream_config
  write_bool b

abbrev pub write_list_socks5_sockets_request : Writer
write_list_socks5_sockets_request = write_command SandstormCommandType.list_socks5_sockets

abbrev pub write_add_socks5_socket_request : SocketAddr → Writer
write_add_socks5_socket_request addr = do
  write_command SandstormCommandType.add_socks5_socket
  write_socket_addr addr

abbrev pub write_remove_socks5_socket_request : SocketAddr → Writer
write_remove_socks5_socket_request addr = do
  write_command SandstormCommandType.remove_socks5_socket
  write_socket_addr addr

abbrev pub write_list_sandstorm_sockets_request : Writer
write_list_sandstorm_sockets_request = write_command SandstormCommandType.list_sandstorm_sockets

abbrev pub write_add_sandstorm_socket_request : SocketAddr → Writer
write_add_sandstorm_socket_request addr = do
  write_command SandstormCommandType.add_sandstorm_socket
  write_socket_addr addr

abbrev pub write_remove_sandstorm_socket_request : SocketAddr → Writer
write_remove_sandstorm_socket_request addr = do
  write_command SandstormCommandType.remove_sandstorm_socket
  write_socket_addr addr

abbrev pub write_list_users_request : Writer
write_list_users_request = write_command SandstormCommandType.list_users

abbrev pub write_add_user_request : Text → Text → UserRole → Writer
write_add_user_request s s' role = do
  write_command SandstormCommandType.add_user
  write_small_string s
  write_small_string s'
  write_role role

abbrev pub write_update_user_request : Text → Option Text → Option UserRole → Writer
write_update_user_request s password role = do
  write_command SandstormCommandType.update_user
  write_small_string s
  write_optional_password password
  write_optional_role role

abbrev pub write_delete_user_request : Text → Writer
write_delete_user_request s = do
  write_command SandstormCommandType.delete_user
  write_small_string s

abbrev pub write_list_auth_methods_request : Writer
write_list_auth_methods_request = write_command SandstormCommandType.list_auth_methods

abbrev pub write_toggle_auth_method_request : AuthMethod → Bool → Writer
write_toggle_auth_method_request m b = do
  write_command SandstormCommandType.toggle_auth_method
  write_auth_method m
  write_bool b

abbrev pub write_request_current_metrics_request : Writer
write_request_current_metrics_request = write_command SandstormCommandType.request_current_metrics

abbrev pub write_get_buffer_size_request : Writer
write_get_buffer_size_request = write_command SandstormCommandType.get_buffer_size

abbrev pub write_set_buffer_size_request : ℕ → Writer
write_set_buffer_size_request size = do
  write_command SandstormCommandType.set_buffer_size
  write_u32 size

abbrev pub write_meow_request : Writer
write_meow_request = write_command SandstormCommandType.meow

unfoldable pub write_request : Request → Writer
write_request Request.shutdown = write_shutdown_request
write_request (Request.event_stream_config b) = write_event_stream_config_request b
write_request Request.list_socks5_sockets = write_list_socks5_sockets_request
write_request (Request.add_socks5_socket addr) = write_add_socks5_socket_request addr
write_request (Request.remove_socks5_socket addr) = write_remove_socks5_socket_request addr
write_request Request.list_sandstorm_sockets = write_list_sandstorm_sockets_request
write_request (Request.add_sandstorm_socket addr) = write_add_sandstorm_socket_request addr
write_request (Request.remove_sandstorm_socket addr) = write_remove_sandstorm_socket_request addr
write_request Request.list_users = write_list_users_request
write_request (Request.add_user s s' role) = write_add_user_request s s' role
write_request (Request.update_user s password role) = write_update_user_request s password role
write_request (Request.delete_user s) = write_delete_user_request s
write_request Request.list_auth_methods = write_list_auth_methods_request
write_request (Request.toggle_auth_method m b) = write_toggle_auth_method_request m b
write_request Request.request_current_metrics = write_request_current_metrics_request
write_request Request.get_buffer_size = write_get_buffer_size_request
write_request (Request.set_buffer_size size) = write_set_buffer_size_request size
write_request Request.meow = write_meow_request

-- The request behind a command type. Nothing is requested by EventStream.
unfoldable pub request_of : SandstormCommandType → Reader Request
request_of SandstormCommandType.shutdown = pure Request.shutdown
request_of SandstormCommandType.event_stream_config = do
  b ← read_bool
  pure (Request.event_stream_config b)
request_of SandstormCommandType.list_socks5_sockets = pure Request.list_socks5_sockets
request_of SandstormCommandType.add_socks5_socket = do
  addr ← read_socket_addr
  pure (Request.add_socks5_socket addr)
request_of SandstormCommandType.remove_socks5_socket = do
  addr ← read_socket_addr
  pure (Request.remove_socks5_socket addr)
request_of SandstormCommandType.list_sandstorm_sockets = pure Request.list_sandstorm_sockets
request_of SandstormCommandType.add_sandstorm_socket = do
  addr ← read_socket_addr
  pure (Request.add_sandstorm_socket addr)
request_of SandstormCommandType.remove_sandstorm_socket = do
  addr ← read_socket_addr
  pure (Request.remove_sandstorm_socket addr)
request_of SandstormCommandType.list_users = pure Request.list_users
request_of SandstormCommandType.add_user = do
  s ← read_small_string
  s' ← read_small_string
  role ← read_role
  pure (Request.add_user s s' role)
request_of SandstormCommandType.update_user = do
  s ← read_small_string
  password ← read_optional_password
  role ← read_optional_role
  pure (Request.update_user s password role)
request_of SandstormCommandType.delete_user = do s ← read_small_string; pure (Request.delete_user s)
request_of SandstormCommandType.list_auth_methods = pure Request.list_auth_methods
request_of SandstormCommandType.toggle_auth_method = do
  m ← read_auth_method
  b ← read_bool
  pure (Request.toggle_auth_method m b)
request_of SandstormCommandType.request_current_metrics = pure Request.request_current_metrics
request_of SandstormCommandType.get_buffer_size = pure Request.get_buffer_size
request_of SandstormCommandType.set_buffer_size = do
  size ← read_u32
  pure (Request.set_buffer_size size)
request_of SandstormCommandType.meow = pure Request.meow
request_of SandstormCommandType.event_stream =
    fail (
      error_new ErrorKind.unsupported (text "Unsupported or invalid sandstorm command EventStream"))

unfoldable pub read_request : Reader Request
unfolding request_of
read_request = do c ← read_command; request_of c
