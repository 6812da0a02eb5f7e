-- ===== src/Server/Args.antt =====
-- dust-devil/src/args.rs: the command line of the server.
pub mod Gathered
pub mod Laws
pub mod Append
use dust_devil.Base.{
  ℕ, zero, suc, ◌+◌, Bool, true, false, not, Option, none, some, List, [], ◌∷◌, ◌++◌, ◌==◌,
  if◌then◌else◌,
}
use dust_devil.Io.{Text, text, Bytes, Error}
use dust_devil.Serialize.Addresses.{SocketAddr, v4, v6}
use dust_devil.Serialize.Containers.{Result}
use dust_devil.Protocol.Users.{UsersLoadingError, regular_prefix_char}
use dust_devil.Protocol.BufferSize.{
  PrettyBufferSizeParseError, trim_front, trim_end, parse_pretty_buffer_size,
}
use dust_devil.Args.{eq_ignore_ascii_case, flag_of, SocketErrorType, parse_socket_arg}
use dust_devil.Server.Table.{Table, lookup, put}
use dust_devil.Server.Users.{UserData}
use dust_devil.Server.UsersFile.{is_empty, parse_line_into_user}

abbrev pub default_users_file : Text
default_users_file = text "users.txt"

abbrev pub default_socks5_port : ℕ
default_socks5_port = 1080

abbrev pub default_sandstorm_port : ℕ
default_sandstorm_port = 2222

abbrev pub default_buffer_size : ℕ
default_buffer_size = 0x2000

pub record StartupArguments : Type 0 where
  pub socks5_bind_sockets : List SocketAddr
  pub sandstorm_bind_sockets : List SocketAddr
  pub verbose : Bool
  pub silent : Bool
  pub events_enabled : Bool
  pub log_file : Option Text
  pub users_file : Text
  pub users : Table UserData
  pub no_auth_enabled : Bool
  pub userpass_auth_enabled : Bool
  pub buffer_size : ℕ

pub data ArgumentsRequest : Type 0 where
  help version : ArgumentsRequest
  run : StartupArguments → ArgumentsRequest

abbrev pub no_arguments : StartupArguments
no_arguments = record {
  socks5_bind_sockets = [];
  sandstorm_bind_sockets = [];
  verbose = false;
  silent = false;
  events_enabled = true;
  log_file = none;
  users_file = [];
  users = [];
  no_auth_enabled = true;
  userpass_auth_enabled = true;
  buffer_size = 0;
}

abbrev pub unspecified_v4 : Bytes
unspecified_v4 = 0 ∷ 0 ∷ 0 ∷ 0 ∷ []

abbrev pub unspecified_v6 : Bytes
unspecified_v6 = unspecified_v4 ++ unspecified_v4 ++ unspecified_v4 ++ unspecified_v4

-- Where no socket is given, all addresses of both families.
unfoldable pub sockets_or_default : (default_port : ℕ) → List SocketAddr → List SocketAddr
sockets_or_default port [] =
    v6 (record { ip = unspecified_v6; port = port; flowinfo = 0; scope_id = 0 })
    ∷ v4 (record { ip = unspecified_v4; port = port })
    ∷ []
sockets_or_default port (a ∷ more) = a ∷ more

unfoldable pub fill_empty_fields_with_defaults : StartupArguments → StartupArguments
unfolding sockets_or_default
fill_empty_fields_with_defaults r = record r {
  socks5_bind_sockets = sockets_or_default default_socks5_port r.socks5_bind_sockets;
  sandstorm_bind_sockets = sockets_or_default default_sandstorm_port r.sandstorm_bind_sockets;
  users_file = if is_empty r.users_file then default_users_file else r.users_file;
  buffer_size = if r.buffer_size == 0 then default_buffer_size else r.buffer_size;
}

pub data FileErrorType : Type 0 where
  unexpected_end already_specified empty_path : Text → FileErrorType

pub data NewUserErrorType : Type 0 where
  unexpected_end : Text → NewUserErrorType
  duplicate_username invalid_user_specification : Text → Text → NewUserErrorType

pub data AuthToggleErrorType : Type 0 where
  unexpected_end : Text → AuthToggleErrorType
  invalid_auth_type : Text → Text → AuthToggleErrorType

pub data BufferSizeErrorType : Type 0 where
  unexpected_end empty already_specified cannot_be_zero : Text → BufferSizeErrorType
  invalid_format invalid_characters too_large : Text → Text → BufferSizeErrorType

pub data ArgumentsError : Type 0 where
  unknown_argument : Text → ArgumentsError
  cannot_log_with_events_disabled : ArgumentsError
  log_file_error users_file_error : FileErrorType → ArgumentsError
  socks5_listen_error sandstorm_listen_error : SocketErrorType → ArgumentsError
  new_user_error : NewUserErrorType → ArgumentsError
  auth_toggle_error : AuthToggleErrorType → ArgumentsError
  buffer_size_error : BufferSizeErrorType → ArgumentsError

unfoldable pub parse_file_arg : Text → (arg : Text) → Option Text → Result Text FileErrorType
parse_file_arg result arg none = Result.err (FileErrorType.unexpected_end arg)
parse_file_arg result arg (some arg2) =
    if is_empty arg2
    then Result.err (FileErrorType.empty_path arg)
    else if not (is_empty result)
    then Result.err (FileErrorType.already_specified arg)
    else Result.ok arg2

unfoldable pub parse_auth_arg :
    StartupArguments
    → (enable : Bool) → (arg : Text) → Option Text
    → Result StartupArguments AuthToggleErrorType
unfolding eq_ignore_ascii_case
parse_auth_arg r enable arg none = Result.err (AuthToggleErrorType.unexpected_end arg)
parse_auth_arg r enable arg (some arg2) =
    if eq_ignore_ascii_case arg2 (text "noauth")
    then Result.ok (record r { no_auth_enabled = enable })
    else if eq_ignore_ascii_case arg2 (text "userpass")
    then Result.ok (record r { userpass_auth_enabled = enable })
    else Result.err (AuthToggleErrorType.invalid_auth_type arg arg2)

abbrev pub size_error : (arg arg2 : Text) → PrettyBufferSizeParseError → BufferSizeErrorType
size_error arg arg2 PrettyBufferSizeParseError.empty = BufferSizeErrorType.empty arg
size_error arg arg2 PrettyBufferSizeParseError.zero_size = BufferSizeErrorType.cannot_be_zero arg
size_error arg arg2 PrettyBufferSizeParseError.invalid_format =
    BufferSizeErrorType.invalid_format arg arg2
size_error arg arg2 PrettyBufferSizeParseError.invalid_characters =
    BufferSizeErrorType.invalid_characters arg arg2
size_error arg arg2 PrettyBufferSizeParseError.too_large = BufferSizeErrorType.too_large arg arg2

unfoldable pub parse_buffer_size_arg :
    StartupArguments → (arg : Text) → Option Text → Result StartupArguments BufferSizeErrorType
parse_buffer_size_arg r arg none = Result.err (BufferSizeErrorType.unexpected_end arg)
parse_buffer_size_arg r arg (some arg2) =
    if not (r.buffer_size == 0)
    then Result.err (BufferSizeErrorType.already_specified arg)
    else elim (parse_pretty_buffer_size arg2) [
      | Result.ok size ↦ Result.ok (record r { buffer_size = size })
      | Result.err e ↦ Result.err (size_error arg arg2 e)
    ]

abbrev pub starts_with : (ℕ → Bool) → Text → Bool
starts_with p [] = false
starts_with p (c ∷ s) = p c

-- The user of a specification joins the map, if the name is not there yet.
unfoldable pub add_new_user :
    StartupArguments
    → (arg arg2 : Text) → Result (Option (Text × UserData)) UsersLoadingError
    → Result StartupArguments NewUserErrorType
add_new_user r arg arg2 (Result.ok (some (username, user))) = elim (lookup username r.users) [
  | some old ↦ Result.err (NewUserErrorType.duplicate_username arg arg2)
  | none ↦ Result.ok (record r { users = put username user r.users })
]
add_new_user r arg arg2 (Result.ok none) =
    Result.err (NewUserErrorType.invalid_user_specification arg arg2)
add_new_user r arg arg2 (Result.err e) =
    Result.err (NewUserErrorType.invalid_user_specification arg arg2)

pub data Flag : Type 0 where
  help version verbose silent disable_events log_file listen management users_file user : Flag
  auth_enable auth_disable buffer_size : Flag

-- The names that `parse_arguments` tests, in its order.
abbrev pub flags : List (Text × Text × Flag)
flags =
    (text "-h", text "--help", Flag.help)
    ∷ (text "-V", text "--version", Flag.version)
    ∷ (text "-v", text "--verbose", Flag.verbose)
    ∷ (text "-s", text "--silent", Flag.silent)
    ∷ (text "-d", text "--disable-events", Flag.disable_events)
    ∷ (text "-o", text "--log-file", Flag.log_file)
    ∷ (text "-l", text "--listen", Flag.listen)
    ∷ (text "-m", text "--management", Flag.management)
    ∷ (text "-U", text "--users-file", Flag.users_file)
    ∷ (text "-u", text "--user", Flag.user)
    ∷ (text "-A", text "--auth-enable", Flag.auth_enable)
    ∷ (text "-a", text "--auth-disable", Flag.auth_disable)
    ∷ (text "-b", text "--buffer-size", Flag.buffer_size)
    ∷ []

-- What a round of the loop comes to: it returns, it goes on, or it goes on with `args.next()` called.
pub data Round : Type 0 where
  returns : Result ArgumentsRequest ArgumentsError → Round
  goes_on went_on : StartupArguments → Round

abbrev pub went_on_or : {E : Type 0} → (E → ArgumentsError) → Result StartupArguments E → Round
went_on_or wrap (Result.ok r) = Round.went_on r
went_on_or wrap (Result.err e) = Round.returns (Result.err (wrap e))

abbrev pub with_field :
    {A E : Type 0} → (A → StartupArguments) → Result A E → Result StartupArguments E
with_field set (Result.ok a) = Result.ok (set a)
with_field set (Result.err e) = Result.err e

abbrev pub unwrap_or_default : Option Text → Text
unwrap_or_default none = []
unwrap_or_default (some t) = t

abbrev pub is_some : {A : Type 0} → Option A → Bool
is_some none = false
is_some (some a) = true

-- `char::is_alphanumeric`, of Unicode's tables, and `to_socket_addrs` are not the program's.
module _ (is_alphanumeric : ℕ → Bool) (resolve : Text → Result (List SocketAddr) Error) where
  unfoldable pub parse_new_user_arg :
      StartupArguments → (arg : Text) → Option Text → Result StartupArguments NewUserErrorType
  unfolding add_new_user
  parse_new_user_arg r arg none = Result.err (NewUserErrorType.unexpected_end arg)
  parse_new_user_arg r arg (some arg2) =
      let trimmed = trim_end (trim_front arg2) in
      add_new_user r arg arg2 (
        if starts_with is_alphanumeric trimmed
        then parse_line_into_user (regular_prefix_char ∷ trimmed) 1 1
        else parse_line_into_user trimmed 1 0)

  unfoldable pub take_flag : Flag → (arg : Text) → Option Text → StartupArguments → Round
  unfolding parse_file_arg parse_socket_arg parse_new_user_arg parse_auth_arg parse_buffer_size_arg
  take_flag Flag.help arg next r = Round.returns (Result.ok ArgumentsRequest.help)
  take_flag Flag.version arg next r = Round.returns (Result.ok ArgumentsRequest.version)
  take_flag Flag.verbose arg next r = Round.goes_on (record r { verbose = true })
  take_flag Flag.silent arg next r = Round.goes_on (record r { silent = true })
  take_flag Flag.disable_events arg next r =
      if is_some r.log_file
      then Round.returns (Result.err ArgumentsError.cannot_log_with_events_disabled)
      else Round.goes_on (record r { events_enabled = false; silent = true })
  take_flag Flag.log_file arg next r =
      if not r.events_enabled
      then Round.returns (Result.err ArgumentsError.cannot_log_with_events_disabled)
      else went_on_or ArgumentsError.log_file_error (
          with_field (λ f. record r { log_file = some f })
            (parse_file_arg (unwrap_or_default r.log_file) arg next))
  take_flag Flag.listen arg next r = went_on_or ArgumentsError.socks5_listen_error (
      with_field (λ l. record r { socks5_bind_sockets = l })
        (parse_socket_arg resolve r.socks5_bind_sockets arg next default_socks5_port))
  take_flag Flag.management arg next r = went_on_or ArgumentsError.sandstorm_listen_error (
      with_field (λ l. record r { sandstorm_bind_sockets = l })
        (parse_socket_arg resolve r.sandstorm_bind_sockets arg next default_sandstorm_port))
  take_flag Flag.users_file arg next r =
      went_on_or ArgumentsError.users_file_error
        (with_field (λ f. record r { users_file = f }) (parse_file_arg r.users_file arg next))
  take_flag Flag.user arg next r =
      went_on_or ArgumentsError.new_user_error (parse_new_user_arg r arg next)
  take_flag Flag.auth_enable arg next r =
      went_on_or ArgumentsError.auth_toggle_error (parse_auth_arg r true arg next)
  take_flag Flag.auth_disable arg next r =
      went_on_or ArgumentsError.auth_toggle_error (parse_auth_arg r false arg next)
  take_flag Flag.buffer_size arg next r =
      went_on_or ArgumentsError.buffer_size_error (parse_buffer_size_arg r arg next)

  unfoldable pub take_found : Option Flag → (arg : Text) → Option Text → StartupArguments → Round
  unfolding take_flag
  take_found (some f) arg next r = take_flag f arg next r
  take_found none arg next r = Round.returns (Result.err (ArgumentsError.unknown_argument arg))

  unfoldable pub take_arg : Text → Option Text → StartupArguments → Round
  unfolding take_found
  take_arg arg next r =
      if is_empty arg then Round.goes_on r else take_found (flag_of flags arg) arg next r

  abbrev pub finish : StartupArguments → Result ArgumentsRequest ArgumentsError
  finish r = Result.ok (ArgumentsRequest.run (fill_empty_fields_with_defaults r))

  -- The loop.
  unfoldable pub take_args : List Text → StartupArguments → Result ArgumentsRequest ArgumentsError
  unfolding take_arg flag_of fill_empty_fields_with_defaults
  take_args [] r = finish r
  take_args (arg ∷ []) r = elim (take_arg arg none r) [
    | Round.returns o ↦ o
    | Round.goes_on r' ↦ finish r'
    | Round.went_on r' ↦ finish r'
  ]
  take_args (arg ∷ arg2 ∷ args) r = elim (take_arg arg (some arg2) r) [
    | Round.returns o ↦ o
    | Round.goes_on r' ↦ take_args (arg2 ∷ args) r'
    | Round.went_on r' ↦ take_args args r'
  ]

  -- The first argument is the program's name.
  unfoldable pub parse_arguments : List Text → Result ArgumentsRequest ArgumentsError
  unfolding take_args
  parse_arguments [] = finish no_arguments
  parse_arguments (name ∷ args) = take_args args no_arguments
