-- ===== src/Protocol/Responses.antt =====
-- The responses of dust-devil-core/src/sandstorm: each type's `write`, which begins with the command
-- type, and the `read`s as the client runs them behind it (sandstorm/src/sandstorm.rs).
pub mod Lists
pub mod Laws
use dust_devil.Base.{ℕ, Bool, Option, List, [], ◌∷◌, str_eq, if◌then◌else◌}
use dust_devil.Io.{Bytes, Text, text, Error, ErrorKind, error_new}
use dust_devil.Io.Reader.{Reader, ◌>>=◌, pure, read_exact, fail}
use dust_devil.Io.Writer.{Writer, ◌>>◌}
use dust_devil.Serialize.Numbers.{write_u8, write_u32, read_u32, write_bool, read_bool}
use dust_devil.Serialize.Addresses.{SocketAddr}
use dust_devil.Serialize.Containers.{Result}
use dust_devil.Protocol.Users.{UserRole}
use dust_devil.Protocol.Socks.{AuthMethod}
use dust_devil.Protocol.Events.{Event}
use dust_devil.Protocol.Events.Write.{write_event}
use dust_devil.Protocol.Events.Read.{read_event}
use dust_devil.Protocol.Events.Results.{write_finished, read_finished}
use dust_devil.Protocol.Metrics.{
  Metrics, EventStreamConfigResponse, write_config_response, read_config_response,
}
use dust_devil.Protocol.Results.{
  RemoveSocketResponse, write_remove_socket_result, read_remove_socket_result, AddUserResponse,
  write_add_user_result, read_add_user_result, UpdateUserResponse, write_update_user_result,
  read_update_user_result, DeleteUserResponse, write_delete_user_result, read_delete_user_result,
}
use dust_devil.Protocol.Commands.{SandstormCommandType, write_command, read_command}
use dust_devil.Protocol.Responses.Lists.{
  write_addresses, read_addresses, write_user_list, read_user_list, write_auth_methods,
  read_auth_methods, write_optional_metrics, read_optional_metrics,
}

pub data Response : Type 0 where
  shutdown : Response
  event_stream_config : EventStreamConfigResponse → Response
  event_stream : Event → Response
  list_socks5_sockets : List SocketAddr → Response
  add_socks5_socket : Result (Unit {0}) Error → Response
  remove_socks5_socket : RemoveSocketResponse → Response
  list_sandstorm_sockets : List SocketAddr → Response
  add_sandstorm_socket : Result (Unit {0}) Error → Response
  remove_sandstorm_socket : RemoveSocketResponse → Response
  list_users : List (Text × UserRole) → Response
  add_user : AddUserResponse → Response
  update_user : UpdateUserResponse → Response
  delete_user : DeleteUserResponse → Response
  list_auth_methods : List (AuthMethod × Bool) → Response
  toggle_auth_method : Bool → Response
  request_current_metrics : Option Metrics → Response
  get_buffer_size : ℕ → Response
  set_buffer_size : Bool → Response
  meow : Response

abbrev pub write_shutdown_response : Writer
write_shutdown_response = write_command SandstormCommandType.shutdown

abbrev pub write_event_stream_config_response : EventStreamConfigResponse → Writer
write_event_stream_config_response r = do
  write_command SandstormCommandType.event_stream_config
  write_config_response r

abbrev pub write_event_stream_response : Event → Writer
write_event_stream_response r = do write_command SandstormCommandType.event_stream; write_event r

abbrev pub write_list_socks5_sockets_response : List SocketAddr → Writer
write_list_socks5_sockets_response r = do
  write_command SandstormCommandType.list_socks5_sockets
  write_addresses r

abbrev pub write_add_socks5_socket_response : Result (Unit {0}) Error → Writer
write_add_socks5_socket_response r = do
  write_command SandstormCommandType.add_socks5_socket
  write_finished r

abbrev pub write_remove_socks5_socket_response : RemoveSocketResponse → Writer
write_remove_socks5_socket_response r = do
  write_command SandstormCommandType.remove_socks5_socket
  write_remove_socket_result r

abbrev pub write_list_sandstorm_sockets_response : List SocketAddr → Writer
write_list_sandstorm_sockets_response r = do
  write_command SandstormCommandType.list_sandstorm_sockets
  write_addresses r

abbrev pub write_add_sandstorm_socket_response : Result (Unit {0}) Error → Writer
write_add_sandstorm_socket_response r = do
  write_command SandstormCommandType.add_sandstorm_socket
  write_finished r

abbrev pub write_remove_sandstorm_socket_response : RemoveSocketResponse → Writer
write_remove_sandstorm_socket_response r = do
  write_command SandstormCommandType.remove_sandstorm_socket
  write_remove_socket_result r

abbrev pub write_list_users_response : List (Text × UserRole) → Writer
write_list_users_response r = do write_command SandstormCommandType.list_users; write_user_list r

abbrev pub write_add_user_response : AddUserResponse → Writer
write_add_user_response r = do write_command SandstormCommandType.add_user; write_add_user_result r

abbrev pub write_update_user_response : UpdateUserResponse → Writer
write_update_user_response r = do
  write_command SandstormCommandType.update_user
  write_update_user_result r

abbrev pub write_delete_user_response : DeleteUserResponse → Writer
write_delete_user_response r = do
  write_command SandstormCommandType.delete_user
  write_delete_user_result r

abbrev pub write_list_auth_methods_response : List (AuthMethod × Bool) → Writer
write_list_auth_methods_response r = do
  write_command SandstormCommandType.list_auth_methods
  write_auth_methods r

abbrev pub write_toggle_auth_method_response : Bool → Writer
write_toggle_auth_method_response r = do
  write_command SandstormCommandType.toggle_auth_method
  write_bool r

abbrev pub write_request_current_metrics_response : Option Metrics → Writer
write_request_current_metrics_response r = do
  write_command SandstormCommandType.request_current_metrics
  write_optional_metrics r

abbrev pub write_get_buffer_size_response : ℕ → Writer
write_get_buffer_size_response r = do
  write_command SandstormCommandType.get_buffer_size
  write_u32 r

abbrev pub write_set_buffer_size_response : Bool → Writer
write_set_buffer_size_response r = do
  write_command SandstormCommandType.set_buffer_size
  write_bool r

abbrev pub write_meow_response : Writer
write_meow_response = do
  write_command SandstormCommandType.meow
  write_u8 b'M'
  write_u8 b'E'
  write_u8 b'O'
  write_u8 b'W'

unfoldable pub write_response : Response → Writer
write_response Response.shutdown = write_shutdown_response
write_response (Response.event_stream_config r) = write_event_stream_config_response r
write_response (Response.event_stream r) = write_event_stream_response r
write_response (Response.list_socks5_sockets r) = write_list_socks5_sockets_response r
write_response (Response.add_socks5_socket r) = write_add_socks5_socket_response r
write_response (Response.remove_socks5_socket r) = write_remove_socks5_socket_response r
write_response (Response.list_sandstorm_sockets r) = write_list_sandstorm_sockets_response r
write_response (Response.add_sandstorm_socket r) = write_add_sandstorm_socket_response r
write_response (Response.remove_sandstorm_socket r) = write_remove_sandstorm_socket_response r
write_response (Response.list_users r) = write_list_users_response r
write_response (Response.add_user r) = write_add_user_response r
write_response (Response.update_user r) = write_update_user_response r
write_response (Response.delete_user r) = write_delete_user_response r
write_response (Response.list_auth_methods r) = write_list_auth_methods_response r
write_response (Response.toggle_auth_method r) = write_toggle_auth_method_response r
write_response (Response.request_current_metrics r) = write_request_current_metrics_response r
write_response (Response.get_buffer_size r) = write_get_buffer_size_response r
write_response (Response.set_buffer_size r) = write_set_buffer_size_response r
write_response Response.meow = write_meow_response

unfoldable pub meow_of : Bytes → Reader Response
meow_of said =
    if str_eq said (b'M' ∷ b'E' ∷ b'O' ∷ b'W' ∷ [])
    then pure Response.meow
    else fail
        (error_new ErrorKind.invalid_data (text "Server responded to meow, but did not say MEOW!"))

-- The response behind a command type.
unfoldable pub response_of : SandstormCommandType → Reader Response
unfolding meow_of
response_of SandstormCommandType.shutdown = pure Response.shutdown
response_of SandstormCommandType.event_stream_config = do
  r ← read_config_response
  pure (Response.event_stream_config r)
response_of SandstormCommandType.event_stream = do r ← read_event; pure (Response.event_stream r)
response_of SandstormCommandType.list_socks5_sockets = do
  r ← read_addresses
  pure (Response.list_socks5_sockets r)
response_of SandstormCommandType.add_socks5_socket = do
  r ← read_finished
  pure (Response.add_socks5_socket r)
response_of SandstormCommandType.remove_socks5_socket = do
  r ← read_remove_socket_result
  pure (Response.remove_socks5_socket r)
response_of SandstormCommandType.list_sandstorm_sockets = do
  r ← read_addresses
  pure (Response.list_sandstorm_sockets r)
response_of SandstormCommandType.add_sandstorm_socket = do
  r ← read_finished
  pure (Response.add_sandstorm_socket r)
response_of SandstormCommandType.remove_sandstorm_socket = do
  r ← read_remove_socket_result
  pure (Response.remove_sandstorm_socket r)
response_of SandstormCommandType.list_users = do r ← read_user_list; pure (Response.list_users r)
response_of SandstormCommandType.add_user = do r ← read_add_user_result; pure (Response.add_user r)
response_of SandstormCommandType.update_user = do
  r ← read_update_user_result
  pure (Response.update_user r)
response_of SandstormCommandType.delete_user = do
  r ← read_delete_user_result
  pure (Response.delete_user r)
response_of SandstormCommandType.list_auth_methods = do
  r ← read_auth_methods
  pure (Response.list_auth_methods r)
response_of SandstormCommandType.toggle_auth_method = do
  r ← read_bool
  pure (Response.toggle_auth_method r)
response_of SandstormCommandType.request_current_metrics = do
  r ← read_optional_metrics
  pure (Response.request_current_metrics r)
response_of SandstormCommandType.get_buffer_size = do
  r ← read_u32
  pure (Response.get_buffer_size r)
response_of SandstormCommandType.set_buffer_size = do
  r ← read_bool
  pure (Response.set_buffer_size r)
response_of SandstormCommandType.meow = do said ← read_exact 4; meow_of said

unfoldable pub read_response : Reader Response
unfolding response_of
read_response = do c ← read_command; response_of c
