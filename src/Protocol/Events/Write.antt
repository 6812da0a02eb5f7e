-- ===== src/Protocol/Events/Write.antt =====
-- `ByteWrite` for `EventData` and `Event` of logging.rs.
use dust_devil.Io.Writer.{Writer, ◌>>◌}
use dust_devil.Serialize.Numbers.{write_u8, write_u32, write_u64, write_bool, write_i64}
use dust_devil.Serialize.Texts.{write_string, write_small_string}
use dust_devil.Serialize.Addresses.{write_socket_addr}
use dust_devil.Serialize.Errors.{write_error}
use dust_devil.Protocol.Users.{write_role}
use dust_devil.Protocol.Socks.{write_auth_method, write_socks_request}
use dust_devil.Protocol.Events.Results.{
  write_optional_addr, write_loaded, write_saved, write_finished,
}
use dust_devil.Protocol.Events.{
  EventData, Event, new_socks5_socket, failed_bind_socks5_socket, failed_bind_any_socket_aborting,
  removed_socks5_socket, new_sandstorm_socket, failed_bind_sandstorm_socket,
  removed_sandstorm_socket, loading_users_from_file, users_loaded_from_file,
  starting_up_with_single_default_user, saving_users_to_file, users_saved_to_file,
  user_registered_by_args, user_replaced_by_args, new_client_connection_accepted,
  client_connection_accept_failed, client_requested_unsupported_version,
  client_requested_unsupported_command, client_requested_unsupported_atyp,
  client_selected_auth_method, client_no_acceptable_auth_method,
  client_requested_unsupported_userpass_version, client_authenticated_with_userpass,
  client_socks_request, client_dns_lookup, client_attempting_connect,
  client_connection_attempt_bind_failed, client_connection_attempt_connect_failed,
  client_failed_to_connect_to_destination, client_connected_to_destination, client_bytes_sent,
  client_bytes_received, client_source_shutdown, client_destination_shutdown,
  client_connection_finished, new_sandstorm_connection_accepted, sandstorm_connection_accept_failed,
  sandstorm_requested_unsupported_version, sandstorm_authenticated_as,
  new_socks_socket_requested_by_manager, remove_socks_socket_requested_by_manager,
  new_sandstorm_socket_requested_by_manager, remove_sandstorm_socket_requested_by_manager,
  user_registered_by_manager, user_updated_by_manager, user_deleted_by_manager,
  auth_method_toggled_by_manager, buffer_size_changed_by_manager, sandstorm_requested_shutdown,
  sandstorm_connection_finished, shutdown_signal_received,
}

unfoldable pub write_event_data : EventData → Writer
write_event_data (new_socks5_socket addr) = do write_u8 0x01; write_socket_addr addr
write_event_data (failed_bind_socks5_socket addr e) = do
  write_u8 0x02
  write_socket_addr addr
  write_error e
write_event_data failed_bind_any_socket_aborting = write_u8 0x03
write_event_data (removed_socks5_socket addr) = do write_u8 0x04; write_socket_addr addr
write_event_data (new_sandstorm_socket addr) = do write_u8 0x05; write_socket_addr addr
write_event_data (failed_bind_sandstorm_socket addr e) = do
  write_u8 0x06
  write_socket_addr addr
  write_error e
write_event_data (removed_sandstorm_socket addr) = do write_u8 0x07; write_socket_addr addr
write_event_data (loading_users_from_file s) = do write_u8 0x08; write_string s
write_event_data (users_loaded_from_file s r) = do write_u8 0x09; write_string s; write_loaded r
write_event_data (starting_up_with_single_default_user s) = do write_u8 0x0A; write_string s
write_event_data (saving_users_to_file s) = do write_u8 0x0B; write_string s
write_event_data (users_saved_to_file s r) = do write_u8 0x0C; write_string s; write_saved r
write_event_data (user_registered_by_args s role) = do
  write_u8 0x0D
  write_small_string s
  write_role role
write_event_data (user_replaced_by_args s role) = do
  write_u8 0x0E
  write_small_string s
  write_role role
write_event_data (new_client_connection_accepted n addr) = do
  write_u8 0x0F
  write_u64 n
  write_socket_addr addr
write_event_data (client_connection_accept_failed addr e) = do
  write_u8 0x10
  write_optional_addr addr
  write_error e
write_event_data (client_requested_unsupported_version n v) = do
  write_u8 0x11
  write_u64 n
  write_u8 v
write_event_data (client_requested_unsupported_command n v) = do
  write_u8 0x12
  write_u64 n
  write_u8 v
write_event_data (client_requested_unsupported_atyp n v) = do write_u8 0x13; write_u64 n; write_u8 v
write_event_data (client_selected_auth_method n m) = do
  write_u8 0x14
  write_u64 n
  write_auth_method m
write_event_data (client_no_acceptable_auth_method n) = do write_u8 0x15; write_u64 n
write_event_data (client_requested_unsupported_userpass_version n v) = do
  write_u8 0x16
  write_u64 n
  write_u8 v
write_event_data (client_authenticated_with_userpass n s b) = do
  write_u8 0x17
  write_u64 n
  write_small_string s
  write_bool b
write_event_data (client_socks_request n r) = do write_u8 0x18; write_u64 n; write_socks_request r
write_event_data (client_dns_lookup n s) = do write_u8 0x19; write_u64 n; write_small_string s
write_event_data (client_attempting_connect n addr) = do
  write_u8 0x1A
  write_u64 n
  write_socket_addr addr
write_event_data (client_connection_attempt_bind_failed n e) = do
  write_u8 0x1B
  write_u64 n
  write_error e
write_event_data (client_connection_attempt_connect_failed n e) = do
  write_u8 0x1C
  write_u64 n
  write_error e
write_event_data (client_failed_to_connect_to_destination n) = do write_u8 0x1D; write_u64 n
write_event_data (client_connected_to_destination n addr) = do
  write_u8 0x1E
  write_u64 n
  write_socket_addr addr
write_event_data (client_bytes_sent n n') = do write_u8 0x1F; write_u64 n; write_u64 n'
write_event_data (client_bytes_received n n') = do write_u8 0x20; write_u64 n; write_u64 n'
write_event_data (client_source_shutdown n) = do write_u8 0x21; write_u64 n
write_event_data (client_destination_shutdown n) = do write_u8 0x22; write_u64 n
write_event_data (client_connection_finished n n' n'' r) = do
  write_u8 0x23
  write_u64 n
  write_u64 n'
  write_u64 n''
  write_finished r
write_event_data (new_sandstorm_connection_accepted n addr) = do
  write_u8 0x24
  write_u64 n
  write_socket_addr addr
write_event_data (sandstorm_connection_accept_failed addr e) = do
  write_u8 0x25
  write_optional_addr addr
  write_error e
write_event_data (sandstorm_requested_unsupported_version n v) = do
  write_u8 0x26
  write_u64 n
  write_u8 v
write_event_data (sandstorm_authenticated_as n s b) = do
  write_u8 0x27
  write_u64 n
  write_string s
  write_bool b
write_event_data (new_socks_socket_requested_by_manager n addr) = do
  write_u8 0x28
  write_u64 n
  write_socket_addr addr
write_event_data (remove_socks_socket_requested_by_manager n addr) = do
  write_u8 0x29
  write_u64 n
  write_socket_addr addr
write_event_data (new_sandstorm_socket_requested_by_manager n addr) = do
  write_u8 0x2A
  write_u64 n
  write_socket_addr addr
write_event_data (remove_sandstorm_socket_requested_by_manager n addr) = do
  write_u8 0x2B
  write_u64 n
  write_socket_addr addr
write_event_data (user_registered_by_manager n s role) = do
  write_u8 0x2C
  write_u64 n
  write_string s
  write_role role
write_event_data (user_updated_by_manager n s role b) = do
  write_u8 0x2D
  write_u64 n
  write_string s
  write_role role
  write_bool b
write_event_data (user_deleted_by_manager n s role) = do
  write_u8 0x2E
  write_u64 n
  write_string s
  write_role role
write_event_data (auth_method_toggled_by_manager n m b) = do
  write_u8 0x2F
  write_u64 n
  write_auth_method m
  write_bool b
write_event_data (buffer_size_changed_by_manager n size) = do
  write_u8 0x30
  write_u64 n
  write_u32 size
write_event_data (sandstorm_requested_shutdown n) = do write_u8 0x31; write_u64 n
write_event_data (sandstorm_connection_finished n r) = do
  write_u8 0x32
  write_u64 n
  write_finished r
write_event_data shutdown_signal_received = write_u8 0x33

unfoldable pub write_event : Event → Writer
write_event e = do write_i64 e.timestamp; write_event_data e.event_data
