-- ===== src/Client/Args/Options.antt =====
-- sandstorm/src/args.rs: what stands behind an option.
use dust_devil.Base.{ℕ, Bool, not, Option, none, some, ltb, if◌then◌else◌}
use dust_devil.Io.{Text, text}
use dust_devil.Utf8.{byte_len}
use dust_devil.Serialize.Containers.{Result}
use dust_devil.Protocol.Users.{UserRole, regular, into_role_char}
use dust_devil.Protocol.Socks.{AuthMethod, no_auth, username_and_password}
use dust_devil.Protocol.BufferSize.{PrettyBufferSizeParseError, parse_pretty_buffer_size}
use dust_devil.Args.{eq_ignore_ascii_case}
use dust_devil.Client.Args.Users.{is_empty, ParseIntoUserError, User, parse_into_user}
use dust_devil.Client.Args.{
  CredentialsErrorType, EnvCredentialsErrorType, AddUserErrorType, UpdateUserErrorType,
  DeleteUserErrorType, AuthToggleErrorType, BufferSizeErrorType,
}

unfoldable pub credentials_of :
    (arg : Text) → Result User ParseIntoUserError → Result (Text × Text) CredentialsErrorType
credentials_of arg (Result.ok (username, some password, none)) = Result.ok (username, password)
credentials_of arg (Result.ok (username, password, some role)) =
    Result.err (CredentialsErrorType.dont_specify_role_char arg (into_role_char role))
credentials_of arg (Result.ok (username, none, none)) =
    Result.err (CredentialsErrorType.empty_password arg)
credentials_of arg (Result.err ParseIntoUserError.empty) =
    Result.err (CredentialsErrorType.empty arg)
credentials_of arg (Result.err (ParseIntoUserError.invalid_role_char c)) =
    Result.err (CredentialsErrorType.dont_specify_role_char arg c)
credentials_of arg (Result.err ParseIntoUserError.empty_username) =
    Result.err (CredentialsErrorType.empty_username arg)
credentials_of arg (Result.err ParseIntoUserError.username_too_long) =
    Result.err (CredentialsErrorType.username_too_long arg)
credentials_of arg (Result.err ParseIntoUserError.empty_password) =
    Result.err (CredentialsErrorType.empty_password arg)
credentials_of arg (Result.err ParseIntoUserError.password_too_long) =
    Result.err (CredentialsErrorType.password_too_long arg)

-- What `env::var` says of the variable.
pub data Variable : Type 0 where
  present : Text → Variable
  not_present not_unicode : Variable

unfoldable pub env_credentials_of :
    Result User ParseIntoUserError → Result (Option (Text × Text)) EnvCredentialsErrorType
env_credentials_of (Result.ok (username, some password, none)) =
    Result.ok (some (username, password))
env_credentials_of (Result.ok (username, password, some role)) =
    Result.err (EnvCredentialsErrorType.dont_specify_role_char (into_role_char role))
env_credentials_of (Result.ok (username, none, none)) =
    Result.err EnvCredentialsErrorType.empty_password
env_credentials_of (Result.err ParseIntoUserError.empty) = Result.err EnvCredentialsErrorType.empty
env_credentials_of (Result.err (ParseIntoUserError.invalid_role_char c)) =
    Result.err (EnvCredentialsErrorType.dont_specify_role_char c)
env_credentials_of (Result.err ParseIntoUserError.empty_username) =
    Result.err EnvCredentialsErrorType.empty_username
env_credentials_of (Result.err ParseIntoUserError.username_too_long) =
    Result.err EnvCredentialsErrorType.username_too_long
env_credentials_of (Result.err ParseIntoUserError.empty_password) =
    Result.err EnvCredentialsErrorType.empty_password
env_credentials_of (Result.err ParseIntoUserError.password_too_long) =
    Result.err EnvCredentialsErrorType.password_too_long

abbrev role_or_regular : Option UserRole → UserRole
role_or_regular none = regular
role_or_regular (some role) = role

unfoldable pub added_user_of :
    (arg : Text) → Result User ParseIntoUserError → Result (Text × Text × UserRole) AddUserErrorType
added_user_of arg (Result.ok (username, some password, role)) =
    Result.ok (username, password, role_or_regular role)
added_user_of arg (Result.ok (username, none, role)) =
    Result.err (AddUserErrorType.missing_password arg)
added_user_of arg (Result.err ParseIntoUserError.empty) = Result.err (AddUserErrorType.empty arg)
added_user_of arg (Result.err (ParseIntoUserError.invalid_role_char c)) =
    Result.err (AddUserErrorType.invalid_role_char arg c)
added_user_of arg (Result.err ParseIntoUserError.empty_username) =
    Result.err (AddUserErrorType.empty_username arg)
added_user_of arg (Result.err ParseIntoUserError.username_too_long) =
    Result.err (AddUserErrorType.username_too_long arg)
added_user_of arg (Result.err ParseIntoUserError.empty_password) =
    Result.err (AddUserErrorType.empty_password arg)
added_user_of arg (Result.err ParseIntoUserError.password_too_long) =
    Result.err (AddUserErrorType.password_too_long arg)

unfoldable pub updated_user_of :
    (arg : Text) → Result User ParseIntoUserError → Result User UpdateUserErrorType
updated_user_of arg (Result.ok (username, none, none)) =
    Result.err (UpdateUserErrorType.nothing_was_specified arg)
updated_user_of arg (Result.ok (username, some password, role)) =
    Result.ok (username, some password, role)
updated_user_of arg (Result.ok (username, none, some role)) = Result.ok (username, none, some role)
updated_user_of arg (Result.err ParseIntoUserError.empty) =
    Result.err (UpdateUserErrorType.empty arg)
updated_user_of arg (Result.err (ParseIntoUserError.invalid_role_char c)) =
    Result.err (UpdateUserErrorType.invalid_role_char arg c)
updated_user_of arg (Result.err ParseIntoUserError.empty_username) =
    Result.err (UpdateUserErrorType.empty_username arg)
updated_user_of arg (Result.err ParseIntoUserError.username_too_long) =
    Result.err (UpdateUserErrorType.username_too_long arg)
updated_user_of arg (Result.err ParseIntoUserError.empty_password) =
    Result.err (UpdateUserErrorType.empty_password arg)
updated_user_of arg (Result.err ParseIntoUserError.password_too_long) =
    Result.err (UpdateUserErrorType.password_too_long arg)

unfoldable pub parse_delete_user : (arg : Text) → Option Text → Result Text DeleteUserErrorType
parse_delete_user arg none = Result.err (DeleteUserErrorType.unexpected_end arg)
parse_delete_user arg (some username) =
    if is_empty username
    then Result.err (DeleteUserErrorType.empty arg)
    else if ltb 255 (byte_len username)
    then Result.err (DeleteUserErrorType.username_too_long arg)
    else Result.ok username

unfoldable pub parse_auth_arg : (arg : Text) → Option Text → Result AuthMethod AuthToggleErrorType
unfolding eq_ignore_ascii_case
parse_auth_arg arg none = Result.err (AuthToggleErrorType.unexpected_end arg)
parse_auth_arg arg (some arg2) =
    if eq_ignore_ascii_case arg2 (text "noauth")
    then Result.ok no_auth
    else if eq_ignore_ascii_case arg2 (text "userpass")
    then Result.ok username_and_password
    else Result.err (AuthToggleErrorType.invalid_auth_type arg arg2)

abbrev size_error : (arg arg2 : Text) → PrettyBufferSizeParseError → BufferSizeErrorType
size_error arg arg2 PrettyBufferSizeParseError.empty = BufferSizeErrorType.empty arg
size_error arg arg2 PrettyBufferSizeParseError.zero_size = BufferSizeErrorType.cannot_be_zero arg
size_error arg arg2 PrettyBufferSizeParseError.invalid_format =
    BufferSizeErrorType.invalid_format arg arg2
size_error arg arg2 PrettyBufferSizeParseError.invalid_characters =
    BufferSizeErrorType.invalid_characters arg arg2
size_error arg arg2 PrettyBufferSizeParseError.too_large = BufferSizeErrorType.too_large arg arg2

unfoldable pub parse_buffer_size_arg : (arg : Text) → Option Text → Result ℕ BufferSizeErrorType
parse_buffer_size_arg arg none = Result.err (BufferSizeErrorType.unexpected_end arg)
parse_buffer_size_arg arg (some arg2) = elim (parse_pretty_buffer_size arg2) [
  | Result.ok size ↦ Result.ok size
  | Result.err e ↦ Result.err (size_error arg arg2 e)
]

module _ (is_alphanumeric : ℕ → Bool) where
  unfoldable pub parse_credentials :
      (result : Text × Text)
      → (arg : Text) → Option Text
      → Result (Text × Text) CredentialsErrorType
  unfolding credentials_of
  parse_credentials (username, password) arg next =
      if not (is_empty username)
      then Result.err (CredentialsErrorType.already_specified arg)
      else elim next [
        | none ↦ Result.err (CredentialsErrorType.unexpected_end arg)
        | some credentials ↦ credentials_of arg (parse_into_user is_alphanumeric credentials)
      ]

  unfoldable pub parse_env_credentials :
      Variable → Result (Option (Text × Text)) EnvCredentialsErrorType
  unfolding env_credentials_of
  parse_env_credentials (Variable.present s) =
      env_credentials_of (parse_into_user is_alphanumeric s)
  parse_env_credentials Variable.not_present = Result.ok none
  parse_env_credentials Variable.not_unicode = Result.err EnvCredentialsErrorType.not_unicode

  unfoldable pub parse_add_user :
      (arg : Text) → Option Text → Result (Text × Text × UserRole) AddUserErrorType
  unfolding added_user_of
  parse_add_user arg none = Result.err (AddUserErrorType.unexpected_end arg)
  parse_add_user arg (some s) = added_user_of arg (parse_into_user is_alphanumeric s)

  unfoldable pub parse_update_user : (arg : Text) → Option Text → Result User UpdateUserErrorType
  unfolding updated_user_of
  parse_update_user arg none = Result.err (UpdateUserErrorType.unexpected_end arg)
  parse_update_user arg (some s) = updated_user_of arg (parse_into_user is_alphanumeric s)
