-- ===== src/Protocol/Events/Read.antt =====
-- `ByteRead` for `EventData` and `Event` of logging.rs.
use dust_devil.Base.{ℕ, ◌==◌, if◌then◌else◌}
use dust_devil.Io.{text, ErrorKind, error_new}
use dust_devil.Io.Reader.{Reader, ◌>>=◌, pure, fail}
use dust_devil.Serialize.Numbers.{read_u8, read_u32, read_u64, read_bool, read_i64}
use dust_devil.Serialize.Texts.{read_string, read_small_string}
use dust_devil.Serialize.Addresses.{read_socket_addr}
use dust_devil.Serialize.Errors.{read_error}
use dust_devil.Protocol.Users.{read_role}
use dust_devil.Protocol.Socks.{read_auth_method, read_socks_request}
use dust_devil.Protocol.Events.Results.{read_optional_addr, read_loaded, read_saved, read_finished}
use dust_devil.Protocol.Events.{
  EventData, Event, new_socks5_socket, failed_bind_socks5_socket, failed_bind_any_socket_aborting,
  removed_socks5_socket, new_sandstorm_socket, failed_bind_sandstorm_socket,
  removed_sandstorm_socket, loading_users_from_file, users_loaded_from_file,
  starting_up_with_single_default_user, saving_users_to_file, users_saved_to_file,
  user_registered_by_args, user_replaced_by_args, new_client_connection_accepted,
  client_connection_accept_failed, client_requested_unsupported_version,
  client_requested_unsupported_command, client_requested_unsupported_atyp,
  client_selected_auth_method, client_no_acceptable_auth_method,
  client_requested_unsupported_userpass_version, client_authenticated_with_userpass,
  client_socks_request, client_dns_lookup, client_attempting_connect,
  client_connection_attempt_bind_failed, client_connection_attempt_connect_failed,
  client_failed_to_connect_to_destination, client_connected_to_destination, client_bytes_sent,
  client_bytes_received, client_source_shutdown, client_destination_shutdown,
  client_connection_finished, new_sandstorm_connection_accepted, sandstorm_connection_accept_failed,
  sandstorm_requested_unsupported_version, sandstorm_authenticated_as,
  new_socks_socket_requested_by_manager, remove_socks_socket_requested_by_manager,
  new_sandstorm_socket_requested_by_manager, remove_sandstorm_socket_requested_by_manager,
  user_registered_by_manager, user_updated_by_manager, user_deleted_by_manager,
  auth_method_toggled_by_manager, buffer_size_changed_by_manager, sandstorm_requested_shutdown,
  sandstorm_connection_finished, shutdown_signal_received,
}

-- The second half of the table of type bytes.
unfoldable pub late_event_of : ℕ → Reader EventData
late_event_of t =
    if t == 0x1B
    then (do n ← read_u64; e ← read_error; pure (client_connection_attempt_bind_failed n e))
    else if t == 0x1C
    then (do n ← read_u64; e ← read_error; pure (client_connection_attempt_connect_failed n e))
    else if t == 0x1D
    then (do n ← read_u64; pure (client_failed_to_connect_to_destination n))
    else if t == 0x1E
    then (do n ← read_u64; addr ← read_socket_addr; pure (client_connected_to_destination n addr))
    else if t == 0x1F
    then (do n ← read_u64; n' ← read_u64; pure (client_bytes_sent n n'))
    else if t == 0x20
    then (do n ← read_u64; n' ← read_u64; pure (client_bytes_received n n'))
    else if t == 0x21
    then (do n ← read_u64; pure (client_source_shutdown n))
    else if t == 0x22
    then (do n ← read_u64; pure (client_destination_shutdown n))
    else if t == 0x23
    then (do
      n ← read_u64
      n' ← read_u64
      n'' ← read_u64
      r ← read_finished
      pure (client_connection_finished n n' n'' r))
    else if t == 0x24
    then (do n ← read_u64; addr ← read_socket_addr; pure (new_sandstorm_connection_accepted n addr))
    else if t == 0x25
    then (do
      addr ← read_optional_addr
      e ← read_error
      pure (sandstorm_connection_accept_failed addr e))
    else if t == 0x26
    then (do n ← read_u64; v ← read_u8; pure (sandstorm_requested_unsupported_version n v))
    else if t == 0x27
    then (do n ← read_u64; s ← read_string; b ← read_bool; pure (sandstorm_authenticated_as n s b))
    else if t == 0x28
    then (do
      n ← read_u64
      addr ← read_socket_addr
      pure (new_socks_socket_requested_by_manager n addr))
    else if t == 0x29
    then (do
      n ← read_u64
      addr ← read_socket_addr
      pure (remove_socks_socket_requested_by_manager n addr))
    else if t == 0x2A
    then (do
      n ← read_u64
      addr ← read_socket_addr
      pure (new_sandstorm_socket_requested_by_manager n addr))
    else if t == 0x2B
    then (do
      n ← read_u64
      addr ← read_socket_addr
      pure (remove_sandstorm_socket_requested_by_manager n addr))
    else if t == 0x2C
    then (do
      n ← read_u64
      s ← read_string
      role ← read_role
      pure (user_registered_by_manager n s role))
    else if t == 0x2D
    then (do
      n ← read_u64
      s ← read_string
      role ← read_role
      b ← read_bool
      pure (user_updated_by_manager n s role b))
    else if t == 0x2E
    then (do
      n ← read_u64
      s ← read_string
      role ← read_role
      pure (user_deleted_by_manager n s role))
    else if t == 0x2F
    then (do
      n ← read_u64
      m ← read_auth_method
      b ← read_bool
      pure (auth_method_toggled_by_manager n m b))
    else if t == 0x30
    then (do n ← read_u64; size ← read_u32; pure (buffer_size_changed_by_manager n size))
    else if t == 0x31
    then (do n ← read_u64; pure (sandstorm_requested_shutdown n))
    else if t == 0x32
    then (do n ← read_u64; r ← read_finished; pure (sandstorm_connection_finished n r))
    else if t == 0x33
    then pure shutdown_signal_received
    else fail (error_new ErrorKind.invalid_data (text "Invalid EventData type byte"))

-- The event of a type byte.
unfoldable pub event_data_of : ℕ → Reader EventData
unfolding late_event_of
event_data_of t =
    if t == 0x01
    then (do addr ← read_socket_addr; pure (new_socks5_socket addr))
    else if t == 0x02
    then (do addr ← read_socket_addr; e ← read_error; pure (failed_bind_socks5_socket addr e))
    else if t == 0x03
    then pure failed_bind_any_socket_aborting
    else if t == 0x04
    then (do addr ← read_socket_addr; pure (removed_socks5_socket addr))
    else if t == 0x05
    then (do addr ← read_socket_addr; pure (new_sandstorm_socket addr))
    else if t == 0x06
    then (do addr ← read_socket_addr; e ← read_error; pure (failed_bind_sandstorm_socket addr e))
    else if t == 0x07
    then (do addr ← read_socket_addr; pure (removed_sandstorm_socket addr))
    else if t == 0x08
    then (do s ← read_string; pure (loading_users_from_file s))
    else if t == 0x09
    then (do s ← read_string; r ← read_loaded; pure (users_loaded_from_file s r))
    else if t == 0x0A
    then (do s ← read_string; pure (starting_up_with_single_default_user s))
    else if t == 0x0B
    then (do s ← read_string; pure (saving_users_to_file s))
    else if t == 0x0C
    then (do s ← read_string; r ← read_saved; pure (users_saved_to_file s r))
    else if t == 0x0D
    then (do s ← read_small_string; role ← read_role; pure (user_registered_by_args s role))
    else if t == 0x0E
    then (do s ← read_small_string; role ← read_role; pure (user_replaced_by_args s role))
    else if t == 0x0F
    then (do n ← read_u64; addr ← read_socket_addr; pure (new_client_connection_accepted n addr))
    else if t == 0x10
    then (do
      addr ← read_optional_addr
      e ← read_error
      pure (client_connection_accept_failed addr e))
    else if t == 0x11
    then (do n ← read_u64; v ← read_u8; pure (client_requested_unsupported_version n v))
    else if t == 0x12
    then (do n ← read_u64; v ← read_u8; pure (client_requested_unsupported_command n v))
    else if t == 0x13
    then (do n ← read_u64; v ← read_u8; pure (client_requested_unsupported_atyp n v))
    else if t == 0x14
    then (do n ← read_u64; m ← read_auth_method; pure (client_selected_auth_method n m))
    else if t == 0x15
    then (do n ← read_u64; pure (client_no_acceptable_auth_method n))
    else if t == 0x16
    then (do n ← read_u64; v ← read_u8; pure (client_requested_unsupported_userpass_version n v))
    else if t == 0x17
    then (do
      n ← read_u64
      s ← read_small_string
      b ← read_bool
      pure (client_authenticated_with_userpass n s b))
    else if t == 0x18
    then (do n ← read_u64; r ← read_socks_request; pure (client_socks_request n r))
    else if t == 0x19
    then (do n ← read_u64; s ← read_small_string; pure (client_dns_lookup n s))
    else if t == 0x1A
    then (do n ← read_u64; addr ← read_socket_addr; pure (client_attempting_connect n addr))
    else late_event_of t

unfoldable pub read_event_data : Reader EventData
unfolding event_data_of
read_event_data = do t ← read_u8; event_data_of t

unfoldable pub read_event : Reader Event
read_event = do
  timestamp ← read_i64
  body ← read_event_data
  pure (record { timestamp = timestamp; event_data = body })
