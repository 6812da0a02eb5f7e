-- ===== src/Protocol/Events/Laws.antt =====
-- Events of dust-devil-core/src/logging.rs, written and read.
use dust_devil.Base.{refl, ◌<◌, ◌^◌}
use dust_devil.Io.Wire.{Wire, Wire-bind, Wire-end}
use dust_devil.Serialize.Numbers.{IsI64}
use dust_devil.Serialize.Numbers.Laws.{Wire-u8, Wire-i64}
use dust_devil.Serialize.Texts.Laws.{IsText}
use dust_devil.Serialize.Addresses.{IsSocketAddr}
use dust_devil.Serialize.Errors.Laws.{error_seen}
use dust_devil.Serialize.Rules.{wire_rules}
use dust_devil.Protocol.Users.Laws.{role_first, role_last}
use dust_devil.Protocol.Socks.Laws.{
  IsSocksRequest, Wire-socks_request, auth_method_first, auth_method_last,
}
use dust_devil.Protocol.Events.Results.{
  IsOptionalAddr, IsLoaded, IsSaved, IsFinished, loaded_seen, saved_seen, finished_seen,
  result_rules,
}
use dust_devil.Protocol.Events.{
  EventData, Event, new_socks5_socket, failed_bind_socks5_socket, failed_bind_any_socket_aborting,
  removed_socks5_socket, new_sandstorm_socket, failed_bind_sandstorm_socket,
  removed_sandstorm_socket, loading_users_from_file, users_loaded_from_file,
  starting_up_with_single_default_user, saving_users_to_file, users_saved_to_file,
  user_registered_by_args, user_replaced_by_args, new_client_connection_accepted,
  client_connection_accept_failed, client_requested_unsupported_version,
  client_requested_unsupported_command, client_requested_unsupported_atyp,
  client_selected_auth_method, client_no_acceptable_auth_method,
  client_requested_unsupported_userpass_version, client_authenticated_with_userpass,
  client_socks_request, client_dns_lookup, client_attempting_connect,
  client_connection_attempt_bind_failed, client_connection_attempt_connect_failed,
  client_failed_to_connect_to_destination, client_connected_to_destination, client_bytes_sent,
  client_bytes_received, client_source_shutdown, client_destination_shutdown,
  client_connection_finished, new_sandstorm_connection_accepted, sandstorm_connection_accept_failed,
  sandstorm_requested_unsupported_version, sandstorm_authenticated_as,
  new_socks_socket_requested_by_manager, remove_socks_socket_requested_by_manager,
  new_sandstorm_socket_requested_by_manager, remove_sandstorm_socket_requested_by_manager,
  user_registered_by_manager, user_updated_by_manager, user_deleted_by_manager,
  auth_method_toggled_by_manager, buffer_size_changed_by_manager, sandstorm_requested_shutdown,
  sandstorm_connection_finished, shutdown_signal_received,
}
use dust_devil.Protocol.Events.Write.{write_event_data, write_event}
use dust_devil.Protocol.Events.Read.{read_event_data, read_event}

-- What the Rust types promise of the values inside an event, and texts short enough to be written.
abbrev pub IsEventData : EventData → Type 0
IsEventData (new_socks5_socket addr) = IsSocketAddr addr
IsEventData (failed_bind_socks5_socket addr e) = IsSocketAddr addr × IsText 65535 e.message
IsEventData (removed_socks5_socket addr) = IsSocketAddr addr
IsEventData (new_sandstorm_socket addr) = IsSocketAddr addr
IsEventData (failed_bind_sandstorm_socket addr e) = IsSocketAddr addr × IsText 65535 e.message
IsEventData (removed_sandstorm_socket addr) = IsSocketAddr addr
IsEventData (loading_users_from_file s) = IsText 65535 s
IsEventData (users_loaded_from_file s r) = IsText 65535 s × IsLoaded r
IsEventData (starting_up_with_single_default_user s) = IsText 65535 s
IsEventData (saving_users_to_file s) = IsText 65535 s
IsEventData (users_saved_to_file s r) = IsText 65535 s × IsSaved r
IsEventData (user_registered_by_args s _) = IsText 255 s
IsEventData (user_replaced_by_args s _) = IsText 255 s
IsEventData (new_client_connection_accepted n addr) = (n < 256 ^ 8) × IsSocketAddr addr
IsEventData (client_connection_accept_failed addr e) = IsOptionalAddr addr × IsText 65535 e.message
IsEventData (client_requested_unsupported_version n _) = (n < 256 ^ 8)
IsEventData (client_requested_unsupported_command n _) = (n < 256 ^ 8)
IsEventData (client_requested_unsupported_atyp n _) = (n < 256 ^ 8)
IsEventData (client_selected_auth_method n _) = (n < 256 ^ 8)
IsEventData (client_no_acceptable_auth_method n) = (n < 256 ^ 8)
IsEventData (client_requested_unsupported_userpass_version n _) = (n < 256 ^ 8)
IsEventData (client_authenticated_with_userpass n s _) = (n < 256 ^ 8) × IsText 255 s
IsEventData (client_socks_request n r) = (n < 256 ^ 8) × IsSocksRequest r
IsEventData (client_dns_lookup n s) = (n < 256 ^ 8) × IsText 255 s
IsEventData (client_attempting_connect n addr) = (n < 256 ^ 8) × IsSocketAddr addr
IsEventData (client_connection_attempt_bind_failed n e) = (n < 256 ^ 8) × IsText 65535 e.message
IsEventData (client_connection_attempt_connect_failed n e) = (n < 256 ^ 8) × IsText 65535 e.message
IsEventData (client_failed_to_connect_to_destination n) = (n < 256 ^ 8)
IsEventData (client_connected_to_destination n addr) = (n < 256 ^ 8) × IsSocketAddr addr
IsEventData (client_bytes_sent n n') = (n < 256 ^ 8) × (n' < 256 ^ 8)
IsEventData (client_bytes_received n n') = (n < 256 ^ 8) × (n' < 256 ^ 8)
IsEventData (client_source_shutdown n) = (n < 256 ^ 8)
IsEventData (client_destination_shutdown n) = (n < 256 ^ 8)
IsEventData (client_connection_finished n n' n'' r) =
    (n < 256 ^ 8) × (n' < 256 ^ 8) × (n'' < 256 ^ 8) × IsFinished r
IsEventData (new_sandstorm_connection_accepted n addr) = (n < 256 ^ 8) × IsSocketAddr addr
IsEventData (sandstorm_connection_accept_failed addr e) =
    IsOptionalAddr addr × IsText 65535 e.message
IsEventData (sandstorm_requested_unsupported_version n _) = (n < 256 ^ 8)
IsEventData (sandstorm_authenticated_as n s _) = (n < 256 ^ 8) × IsText 65535 s
IsEventData (new_socks_socket_requested_by_manager n addr) = (n < 256 ^ 8) × IsSocketAddr addr
IsEventData (remove_socks_socket_requested_by_manager n addr) = (n < 256 ^ 8) × IsSocketAddr addr
IsEventData (new_sandstorm_socket_requested_by_manager n addr) = (n < 256 ^ 8) × IsSocketAddr addr
IsEventData (remove_sandstorm_socket_requested_by_manager n addr) =
    (n < 256 ^ 8) × IsSocketAddr addr
IsEventData (user_registered_by_manager n s _) = (n < 256 ^ 8) × IsText 65535 s
IsEventData (user_updated_by_manager n s _ _) = (n < 256 ^ 8) × IsText 65535 s
IsEventData (user_deleted_by_manager n s _) = (n < 256 ^ 8) × IsText 65535 s
IsEventData (auth_method_toggled_by_manager n _ _) = (n < 256 ^ 8)
IsEventData (buffer_size_changed_by_manager n size) = (n < 256 ^ 8) × (size < 256 ^ 4)
IsEventData (sandstorm_requested_shutdown n) = (n < 256 ^ 8)
IsEventData (sandstorm_connection_finished n r) = (n < 256 ^ 8) × IsFinished r
IsEventData e = Unit {0}

-- The event that the other side sees.
unfoldable pub event_data_seen : EventData → EventData
event_data_seen (failed_bind_socks5_socket addr e) = failed_bind_socks5_socket addr (error_seen e)
event_data_seen (failed_bind_sandstorm_socket addr e) =
    failed_bind_sandstorm_socket addr (error_seen e)
event_data_seen (users_loaded_from_file s r) = users_loaded_from_file s (loaded_seen r)
event_data_seen (users_saved_to_file s r) = users_saved_to_file s (saved_seen r)
event_data_seen (client_connection_accept_failed addr e) =
    client_connection_accept_failed addr (error_seen e)
event_data_seen (client_connection_attempt_bind_failed n e) =
    client_connection_attempt_bind_failed n (error_seen e)
event_data_seen (client_connection_attempt_connect_failed n e) =
    client_connection_attempt_connect_failed n (error_seen e)
event_data_seen (client_connection_finished n n' n'' r) =
    client_connection_finished n n' n'' (finished_seen r)
event_data_seen (sandstorm_connection_accept_failed addr e) =
    sandstorm_connection_accept_failed addr (error_seen e)
event_data_seen (sandstorm_connection_finished n r) =
    sandstorm_connection_finished n (finished_seen r)
event_data_seen e = e

ruleset event_rules = (
  wire_rules, result_rules, role_first, role_last, auth_method_first, auth_method_last,
  Wire-socks_request,
)

pub Wire-event_data :
    (e : EventData) → IsEventData e → Wire (write_event_data e) read_event_data (event_data_seen e)
unfolding write_event_data read_event_data event_data_seen
Wire-event_data failed_bind_any_socket_aborting h = Wire-end _ (Wire-u8 3) refl
Wire-event_data shutdown_signal_received h = Wire-end _ (Wire-u8 0x33) refl
Wire-event_data e h = search event_rules depth 11

abbrev pub IsEvent : Event → Type 0
IsEvent e = IsI64 e.timestamp × IsEventData e.event_data

unfoldable pub event_seen : Event → Event
event_seen e = record e { event_data = event_data_seen e.event_data }

-- An event of any kind, its numbers in range and its texts short enough to be written, travels; the
-- kinds of the errors inside arrive as `error_seen` says.
pub Wire-event : (e : Event) → IsEvent e → Wire (write_event e) read_event (event_seen e)
unfolding write_event read_event event_seen
Wire-event e h = search (Wire-bind, Wire-end, Wire-i64, Wire-event_data)
