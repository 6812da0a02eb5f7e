-- ===== src/Client/Args.antt =====
-- sandstorm/src/args.rs: the command line of the client.
pub mod Users
pub mod Options
pub mod Parse
pub mod Order
use dust_devil.Base.{
  ℕ, zero, suc, ◌+◌, Bool, true, false, not, Option, none, some, List, [], ◌∷◌, ◌++◌, map, ◌==◌,
  ltb, if◌then◌else◌,
}
use dust_devil.Io.{Text, text, Bytes, Error}
use dust_devil.Utf8.{byte_len}
use dust_devil.Serialize.Addresses.{SocketAddr, v4, v6}
use dust_devil.Serialize.Containers.{Result}
use dust_devil.Protocol.Users.{UserRole, admin, regular, into_role_char}
use dust_devil.Protocol.Socks.{AuthMethod, no_auth, username_and_password}
use dust_devil.Protocol.BufferSize.{PrettyBufferSizeParseError, parse_pretty_buffer_size}
use dust_devil.Args.{eq_ignore_ascii_case, flag_of, SocketErrorType, parse_socket_arg}
use dust_devil.Client.Args.Users.{is_empty, ParseIntoUserError, parse_into_user}

abbrev pub default_socks5_port : ℕ
default_socks5_port = 1080

abbrev pub default_sandstorm_port : ℕ
default_sandstorm_port = 2222

pub data CommandRequest : Type 0 where
  shutdown list_socks5_sockets list_sandstorm_sockets list_users list_auth_methods : CommandRequest
  get_metrics get_buffer_size meow : CommandRequest
  add_socks5_socket remove_socks5_socket : SocketAddr → CommandRequest
  add_sandstorm_socket remove_sandstorm_socket : SocketAddr → CommandRequest
  add_user : Text → Text → UserRole → CommandRequest
  update_user : Text → Option Text → Option UserRole → CommandRequest
  delete_user : Text → CommandRequest
  toggle_auth_method : AuthMethod → Bool → CommandRequest
  set_buffer_size : ℕ → CommandRequest

pub record StartupArguments : Type 0 where
  pub verbose : Bool
  pub silent : Bool
  pub server_address : List SocketAddr
  pub login_credentials : Text × Text
  pub requests : List CommandRequest
  pub output_logs : Bool
  pub interactive : Bool

pub data ArgumentsRequest : Type 0 where
  help version : ArgumentsRequest
  run : StartupArguments → ArgumentsRequest

abbrev pub no_arguments : StartupArguments
no_arguments = record {
  verbose = false;
  silent = false;
  server_address = [];
  login_credentials = ([], []);
  requests = [];
  output_logs = false;
  interactive = false;
}

abbrev pub localhost_v4 : Bytes
localhost_v4 = 127 ∷ 0 ∷ 0 ∷ 1 ∷ []

abbrev pub localhost_v6 : Bytes
localhost_v6 = 0 ∷ 0 ∷ 0 ∷ 0 ∷ 0 ∷ 0 ∷ 0 ∷ 0 ∷ 0 ∷ 0 ∷ 0 ∷ 0 ∷ 0 ∷ 0 ∷ 0 ∷ 1 ∷ []

unfoldable pub address_or_default : List SocketAddr → List SocketAddr
address_or_default [] =
    v6 (record { ip = localhost_v6; port = default_sandstorm_port; flowinfo = 0; scope_id = 0 })
    ∷ v4 (record { ip = localhost_v4; port = default_sandstorm_port })
    ∷ []
address_or_default (a ∷ more) = a ∷ more

unfoldable pub fill_empty_fields_with_defaults : StartupArguments → StartupArguments
unfolding address_or_default
fill_empty_fields_with_defaults r = record r {
  server_address = address_or_default r.server_address;
}

pub data CredentialsErrorType : Type 0 where
  unexpected_end already_specified empty : Text → CredentialsErrorType
  empty_username username_too_long empty_password password_too_long : Text → CredentialsErrorType
  dont_specify_role_char : Text → (c : ℕ) → CredentialsErrorType

pub data EnvCredentialsErrorType : Type 0 where
  empty not_unicode empty_username username_too_long : EnvCredentialsErrorType
  empty_password password_too_long : EnvCredentialsErrorType
  dont_specify_role_char : (c : ℕ) → EnvCredentialsErrorType

pub data AddUserErrorType : Type 0 where
  unexpected_end empty missing_password empty_username username_too_long : Text → AddUserErrorType
  empty_password password_too_long : Text → AddUserErrorType
  invalid_role_char : Text → (c : ℕ) → AddUserErrorType

pub data UpdateUserErrorType : Type 0 where
  unexpected_end empty nothing_was_specified empty_username : Text → UpdateUserErrorType
  username_too_long empty_password password_too_long : Text → UpdateUserErrorType
  invalid_role_char : Text → (c : ℕ) → UpdateUserErrorType

pub data DeleteUserErrorType : Type 0 where
  unexpected_end empty username_too_long : Text → DeleteUserErrorType

pub data AuthToggleErrorType : Type 0 where
  unexpected_end : Text → AuthToggleErrorType
  invalid_auth_type : Text → Text → AuthToggleErrorType

pub data BufferSizeErrorType : Type 0 where
  unexpected_end empty cannot_be_zero : Text → BufferSizeErrorType
  invalid_format invalid_characters too_large : Text → Text → BufferSizeErrorType

pub data ArgumentsError : Type 0 where
  unknown_argument : Text → ArgumentsError
  host_error add_socks5_error remove_socks5_error : SocketErrorType → ArgumentsError
  add_sandstorm_error remove_sandstorm_error : SocketErrorType → ArgumentsError
  credentials_error : CredentialsErrorType → ArgumentsError
  env_credentials_error : EnvCredentialsErrorType → ArgumentsError
  no_credentials_specified cant_mix_output_and_interactive : ArgumentsError
  add_user_error : AddUserErrorType → ArgumentsError
  update_user_error : UpdateUserErrorType → ArgumentsError
  delete_user_error : DeleteUserErrorType → ArgumentsError
  auth_toggle_error : AuthToggleErrorType → ArgumentsError
  buffer_size_error : BufferSizeErrorType → ArgumentsError
