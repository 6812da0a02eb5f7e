-- ===== src/Protocol/Events.antt =====
-- dust-devil-core/src/logging.rs: the server's events. `Write` and `Read` hold their serialization
-- and `Laws` what it keeps.
pub mod Results
pub mod Write
pub mod Read
pub mod Laws
use dust_devil.Base.{ℕ, Bool, Option}
use dust_devil.Io.{Text, Error}
use dust_devil.Serialize.Numbers.{ℤ}
use dust_devil.Serialize.Addresses.{SocketAddr}
use dust_devil.Serialize.Containers.{Result}
use dust_devil.Protocol.Users.{UserRole, UsersLoadingError}
use dust_devil.Protocol.Socks.{AuthMethod, SocksRequest}

pub data EventData : Type 0 where
  new_socks5_socket : SocketAddr → EventData
  failed_bind_socks5_socket : SocketAddr → Error → EventData
  failed_bind_any_socket_aborting : EventData
  removed_socks5_socket : SocketAddr → EventData
  new_sandstorm_socket : SocketAddr → EventData
  failed_bind_sandstorm_socket : SocketAddr → Error → EventData
  removed_sandstorm_socket : SocketAddr → EventData
  loading_users_from_file : Text → EventData
  users_loaded_from_file : Text → Result ℕ UsersLoadingError → EventData
  starting_up_with_single_default_user : Text → EventData
  saving_users_to_file : Text → EventData
  users_saved_to_file : Text → Result ℕ Error → EventData
  user_registered_by_args : Text → UserRole → EventData
  user_replaced_by_args : Text → UserRole → EventData
  new_client_connection_accepted : ℕ → SocketAddr → EventData
  client_connection_accept_failed : Option SocketAddr → Error → EventData
  client_requested_unsupported_version : ℕ → ℕ → EventData
  client_requested_unsupported_command : ℕ → ℕ → EventData
  client_requested_unsupported_atyp : ℕ → ℕ → EventData
  client_selected_auth_method : ℕ → AuthMethod → EventData
  client_no_acceptable_auth_method : ℕ → EventData
  client_requested_unsupported_userpass_version : ℕ → ℕ → EventData
  client_authenticated_with_userpass : ℕ → Text → Bool → EventData
  client_socks_request : ℕ → SocksRequest → EventData
  client_dns_lookup : ℕ → Text → EventData
  client_attempting_connect : ℕ → SocketAddr → EventData
  client_connection_attempt_bind_failed : ℕ → Error → EventData
  client_connection_attempt_connect_failed : ℕ → Error → EventData
  client_failed_to_connect_to_destination : ℕ → EventData
  client_connected_to_destination : ℕ → SocketAddr → EventData
  client_bytes_sent : ℕ → ℕ → EventData
  client_bytes_received : ℕ → ℕ → EventData
  client_source_shutdown : ℕ → EventData
  client_destination_shutdown : ℕ → EventData
  client_connection_finished : ℕ → ℕ → ℕ → Result (Unit {0}) Error → EventData
  new_sandstorm_connection_accepted : ℕ → SocketAddr → EventData
  sandstorm_connection_accept_failed : Option SocketAddr → Error → EventData
  sandstorm_requested_unsupported_version : ℕ → ℕ → EventData
  sandstorm_authenticated_as : ℕ → Text → Bool → EventData
  new_socks_socket_requested_by_manager : ℕ → SocketAddr → EventData
  remove_socks_socket_requested_by_manager : ℕ → SocketAddr → EventData
  new_sandstorm_socket_requested_by_manager : ℕ → SocketAddr → EventData
  remove_sandstorm_socket_requested_by_manager : ℕ → SocketAddr → EventData
  user_registered_by_manager : ℕ → Text → UserRole → EventData
  user_updated_by_manager : ℕ → Text → UserRole → Bool → EventData
  user_deleted_by_manager : ℕ → Text → UserRole → EventData
  auth_method_toggled_by_manager : ℕ → AuthMethod → Bool → EventData
  buffer_size_changed_by_manager : ℕ → ℕ → EventData
  sandstorm_requested_shutdown : ℕ → EventData
  sandstorm_connection_finished : ℕ → Result (Unit {0}) Error → EventData
  shutdown_signal_received : EventData

-- A UNIX timestamp and what happened.
pub record Event : Type 0 where
  pub timestamp : ℤ
  pub event_data : EventData
