-- ===== src/Client/Args/Parse.antt =====
-- sandstorm/src/args.rs: `parse_arguments`.
use dust_devil.Base.{
  ℕ, Bool, true, false, Option, none, some, List, [], ◌∷◌, ◌++◌, map, if◌then◌else◌,
}
use dust_devil.Io.{Text, text, Error}
use dust_devil.Serialize.Addresses.{SocketAddr}
use dust_devil.Serialize.Containers.{Result}
use dust_devil.Args.{flag_of, SocketErrorType, parse_socket_arg}
use dust_devil.Client.Args.Users.{is_empty}
use dust_devil.Client.Args.Options.{
  Variable, parse_credentials, parse_env_credentials, parse_add_user, parse_update_user,
  parse_delete_user, parse_auth_arg, parse_buffer_size_arg,
}
use dust_devil.Client.Args.{
  CommandRequest, StartupArguments, ArgumentsRequest, ArgumentsError, EnvCredentialsErrorType,
  no_arguments, fill_empty_fields_with_defaults, default_socks5_port, default_sandstorm_port,
}

pub data Flag : Type 0 where
  help version verbose silent host credentials output_logs interactive : Flag
  asks : CommandRequest → Flag
  add_socks5 remove_socks5 add_sandstr remove_sandstr : Flag
  add_user update_user delete_user auth_enable auth_disable set_buffer_size : Flag

-- The names that `parse_arguments` tests, in its order; `asks` for a request that takes no argument.
abbrev pub flags : List (Text × Text × Flag)
flags =
    (text "-h", text "--help", Flag.help)
    ∷ (text "-V", text "--version", Flag.version)
    ∷ (text "-v", text "--verbose", Flag.verbose)
    ∷ (text "-s", text "--silent", Flag.silent)
    ∷ (text "-x", text "--host", Flag.host)
    ∷ (text "-S", text "--shutdown", Flag.asks CommandRequest.shutdown)
    ∷ (text "-c", text "--credentials", Flag.credentials)
    ∷ (text "-l", text "--list-socks5", Flag.asks CommandRequest.list_socks5_sockets)
    ∷ (text "-k", text "--add-socks5", Flag.add_socks5)
    ∷ (text "-r", text "--remove-socks5", Flag.remove_socks5)
    ∷ (text "-L", text "--list-sandstr", Flag.asks CommandRequest.list_sandstorm_sockets)
    ∷ (text "-K", text "--add-sandstr", Flag.add_sandstr)
    ∷ (text "-R", text "--remove-sandstr", Flag.remove_sandstr)
    ∷ (text "-t", text "--list-users", Flag.asks CommandRequest.list_users)
    ∷ (text "-u", text "--add-user", Flag.add_user)
    ∷ (text "-p", text "--update-user", Flag.update_user)
    ∷ (text "-d", text "--delete-user", Flag.delete_user)
    ∷ (text "-z", text "--list-auth", Flag.asks CommandRequest.list_auth_methods)
    ∷ (text "-A", text "--auth-enable", Flag.auth_enable)
    ∷ (text "-a", text "--auth-disable", Flag.auth_disable)
    ∷ (text "-m", text "--get-metrics", Flag.asks CommandRequest.get_metrics)
    ∷ (text "-B", text "--get-buffer-size", Flag.asks CommandRequest.get_buffer_size)
    ∷ (text "-b", text "--set-buffer-size", Flag.set_buffer_size)
    ∷ (text "-w", text "--meow", Flag.asks CommandRequest.meow)
    ∷ (text "-o", text "--output-logs", Flag.output_logs)
    ∷ (text "-i", text "--interactive", Flag.interactive)
    ∷ []

-- What a round of the loop comes to: it returns, it goes on, or it goes on with `args.next()` called.
pub data Round : Type 0 where
  returns : Result ArgumentsRequest ArgumentsError → Round
  goes_on went_on : StartupArguments → Round

abbrev pub went_on_or :
    {A E : Type 0} → (E → ArgumentsError) → (A → StartupArguments) → Result A E → Round
went_on_or wrap set (Result.ok a) = Round.went_on (set a)
went_on_or wrap set (Result.err e) = Round.returns (Result.err (wrap e))

-- `result.requests.push`, of several.
abbrev pub push : List CommandRequest → StartupArguments → StartupArguments
push more r = record r { requests = r.requests ++ more }

module _ (is_alphanumeric : ℕ → Bool) (resolve : Text → Result (List SocketAddr) Error) where
  -- The addresses of one argument, each asked for.
  abbrev pub push_addresses :
      (SocketErrorType → ArgumentsError)
      → (SocketAddr → CommandRequest)
      → (default_port : ℕ) → (arg : Text) → Option Text
      → StartupArguments
      → Round
  push_addresses wrap ask port arg next r =
      went_on_or wrap (λ l. push (map ask l) r) (parse_socket_arg resolve [] arg next port)

  unfoldable pub take_flag : Flag → (arg : Text) → Option Text → StartupArguments → Round
  unfolding parse_socket_arg parse_credentials parse_add_user parse_update_user parse_delete_user
      parse_auth_arg parse_buffer_size_arg
  take_flag Flag.help arg next r = Round.returns (Result.ok ArgumentsRequest.help)
  take_flag Flag.version arg next r = Round.returns (Result.ok ArgumentsRequest.version)
  take_flag Flag.verbose arg next r = Round.goes_on (record r { verbose = true })
  take_flag Flag.silent arg next r = Round.goes_on (record r { silent = true })
  take_flag Flag.host arg next r =
      went_on_or ArgumentsError.host_error (λ l. record r { server_address = l })
        (parse_socket_arg resolve r.server_address arg next default_sandstorm_port)
  take_flag Flag.credentials arg next r =
      went_on_or ArgumentsError.credentials_error (λ c. record r { login_credentials = c })
        (parse_credentials is_alphanumeric r.login_credentials arg next)
  take_flag (Flag.asks q) arg next r = Round.goes_on (push (q ∷ []) r)
  take_flag Flag.add_socks5 arg next r =
      push_addresses ArgumentsError.add_socks5_error CommandRequest.add_socks5_socket
        default_socks5_port arg next r
  take_flag Flag.remove_socks5 arg next r =
      push_addresses ArgumentsError.remove_socks5_error CommandRequest.remove_socks5_socket
        default_socks5_port arg next r
  take_flag Flag.add_sandstr arg next r =
      push_addresses ArgumentsError.add_sandstorm_error CommandRequest.add_sandstorm_socket
        default_sandstorm_port arg next r
  take_flag Flag.remove_sandstr arg next r =
      push_addresses ArgumentsError.remove_sandstorm_error CommandRequest.remove_sandstorm_socket
        default_sandstorm_port arg next r
  take_flag Flag.add_user arg next r =
      went_on_or ArgumentsError.add_user_error
        (λ u. push (CommandRequest.add_user u.0 u.1 u.2 ∷ []) r)
        (parse_add_user is_alphanumeric arg next)
  take_flag Flag.update_user arg next r =
      went_on_or ArgumentsError.update_user_error
        (λ u. push (CommandRequest.update_user u.0 u.1 u.2 ∷ []) r)
        (parse_update_user is_alphanumeric arg next)
  take_flag Flag.delete_user arg next r =
      went_on_or ArgumentsError.delete_user_error (λ u. push (CommandRequest.delete_user u ∷ []) r)
        (parse_delete_user arg next)
  take_flag Flag.auth_enable arg next r =
      went_on_or ArgumentsError.auth_toggle_error
        (λ m. push (CommandRequest.toggle_auth_method m true ∷ []) r) (parse_auth_arg arg next)
  take_flag Flag.auth_disable arg next r =
      went_on_or ArgumentsError.auth_toggle_error
        (λ m. push (CommandRequest.toggle_auth_method m false ∷ []) r) (parse_auth_arg arg next)
  take_flag Flag.set_buffer_size arg next r =
      went_on_or ArgumentsError.buffer_size_error
        (λ n. push (CommandRequest.set_buffer_size n ∷ []) r) (parse_buffer_size_arg arg next)
  take_flag Flag.output_logs arg next r =
      if r.interactive
      then Round.returns (Result.err ArgumentsError.cant_mix_output_and_interactive)
      else Round.goes_on (record r { output_logs = true })
  take_flag Flag.interactive arg next r =
      if r.output_logs
      then Round.returns (Result.err ArgumentsError.cant_mix_output_and_interactive)
      else Round.goes_on (record r { interactive = true })

  unfoldable pub take_found : Option Flag → (arg : Text) → Option Text → StartupArguments → Round
  unfolding take_flag
  take_found (some f) arg next r = take_flag f arg next r
  take_found none arg next r = Round.returns (Result.err (ArgumentsError.unknown_argument arg))

  unfoldable pub take_arg : Text → Option Text → StartupArguments → Round
  unfolding take_found
  take_arg arg next r =
      if is_empty arg then Round.goes_on r else take_found (flag_of flags arg) arg next r

  unfoldable pub with_credentials :
      StartupArguments
      → Result (Option (Text × Text)) EnvCredentialsErrorType
      → Result ArgumentsRequest ArgumentsError
  with_credentials r (Result.ok (some (name, password))) = Result.ok (
      ArgumentsRequest.run
        (fill_empty_fields_with_defaults (record r { login_credentials = (name, password) })))
  with_credentials r (Result.ok none) = Result.err ArgumentsError.no_credentials_specified
  with_credentials r (Result.err e) = Result.err (ArgumentsError.env_credentials_error e)

  module _ (variable : Variable) where
    -- Behind the loop.
    unfoldable pub finish : StartupArguments → Result ArgumentsRequest ArgumentsError
    unfolding with_credentials parse_env_credentials
    finish r =
        if is_empty r.login_credentials.0
        then with_credentials r (parse_env_credentials is_alphanumeric variable)
        else Result.ok (ArgumentsRequest.run (fill_empty_fields_with_defaults r))

    -- The loop.
    unfoldable pub take_args : List Text → StartupArguments → Result ArgumentsRequest ArgumentsError
    unfolding take_arg flag_of finish fill_empty_fields_with_defaults
    take_args [] r = finish r
    take_args (arg ∷ []) r = elim (take_arg arg none r) [
      | Round.returns o ↦ o
      | Round.goes_on r' ↦ finish r'
      | Round.went_on r' ↦ finish r'
    ]
    take_args (arg ∷ arg2 ∷ args) r = elim (take_arg arg (some arg2) r) [
      | Round.returns o ↦ o
      | Round.goes_on r' ↦ take_args (arg2 ∷ args) r'
      | Round.went_on r' ↦ take_args args r'
    ]

    -- The first argument is the program's name.
    unfoldable pub parse_arguments : List Text → Result ArgumentsRequest ArgumentsError
    unfolding take_args
    parse_arguments [] = finish no_arguments
    parse_arguments (name ∷ args) = take_args args no_arguments
