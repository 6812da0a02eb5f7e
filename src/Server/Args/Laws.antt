-- ===== src/Server/Args/Laws.antt =====
-- What the command line that dust-devil/src/args.rs accepts comes to.
use dust_devil.Base.{
  ℕ, ◌≡◌, refl, Bool, true, false, not, Option, none, some, List, [], ◌∷◌, if◌then◌else◌, arith,
  Bool-cases, inl, inr,
}
use dust_devil.Io.{Text, Error}
use dust_devil.Serialize.Addresses.{SocketAddr}
use dust_devil.Serialize.Containers.{Result}
use dust_devil.Protocol.Users.{regular_prefix_char}
use dust_devil.Protocol.BufferSize.{trim_front, trim_end}
use dust_devil.Args.{parse_socket_arg, flag_of}
use dust_devil.Args.Distinct.{parse_socket_arg-AreDistinct}
use dust_devil.Server.UsersFile.{is_empty}
use dust_devil.Server.UsersFile.Bounds.{parse_line_into_user_bounds}
use dust_devil.Server.Args.{
  StartupArguments, ArgumentsRequest, no_arguments, ArgumentsError, parse_file_arg, Flag, flags,
  Round, went_on_or, with_field, unwrap_or_default, is_some, parse_new_user_arg, starts_with,
  take_flag, take_found, take_arg, finish, take_args, parse_arguments, default_socks5_port,
  default_sandstorm_port,
}
use dust_devil.Server.Args.Gathered.{
  no_arguments-IsGathered, AreGathered, log_file-AreGathered, users_file-AreGathered,
  listen-AreGathered, management-AreGathered, auth-AreGathered, size-AreGathered,
  add_new_user-AreGathered, defaults-IsComplete, IsGathered, IsComplete,
}

abbrev pub IsStarting : Result ArgumentsRequest ArgumentsError → Type 0
IsStarting (Result.ok (ArgumentsRequest.run r)) = IsComplete r
IsStarting _ = Unit

Keeps : Round → Type 0
Keeps (Round.returns o) = IsStarting o
Keeps (Round.goes_on r) = IsGathered r
Keeps (Round.went_on r) = IsGathered r

went_on_or-Keeps :
    {E : Type 0} (wrap : E → ArgumentsError) (o : Result StartupArguments E)
    → AreGathered o
    → Keeps (went_on_or wrap o)
unfolding Keeps
went_on_or-Keeps wrap (Result.ok r) g = g
went_on_or-Keeps wrap (Result.err e) g = tt

module _ (is_alphanumeric : ℕ → Bool) (resolve : Text → Result (List SocketAddr) Error) where
  user-AreGathered :
      (r : StartupArguments) (arg : Text) (next : Option Text)
      → IsGathered r
      → AreGathered (parse_new_user_arg is_alphanumeric resolve r arg next)
  unfolding parse_new_user_arg
  user-AreGathered r arg none g = tt
  user-AreGathered r arg (some arg2) g =
      let trimmed = trim_end (trim_front arg2) in
      add_new_user-AreGathered r arg arg2 _
        (λ name u e. elim (Bool-cases (starts_with is_alphanumeric trimmed)) [
          | inl b ↦
              parse_line_into_user_bounds (regular_prefix_char ∷ trimmed) 1 1 name u (rw b at e)
          | inr b ↦ parse_line_into_user_bounds trimmed 1 0 name u (rw b at e)
        ])
        g

  disable-Keeps :
      (o : Option Text) (r : StartupArguments)
      → r.log_file ≡ o
      → IsGathered r
      → Keeps (
          if is_some o
          then Round.returns (Result.err ArgumentsError.cannot_log_with_events_disabled)
          else Round.goes_on (record r { events_enabled = false; silent = true }))
  unfolding Keeps
  disable-Keeps none r e g = record {
    socks5 = g.socks5;
    sandstorm = g.sandstorm;
    logs = rw e tt;
    quiet = refl;
    names = g.names;
    users = g.users;
    size = g.size;
  }
  disable-Keeps (some file) r e g = tt

  logged-Keeps :
      (b : Bool) (file arg : Text) (next : Option Text) (r : StartupArguments)
      → r.events_enabled ≡ b
      → IsGathered r
      → Keeps (
          if not b
          then Round.returns (Result.err ArgumentsError.cannot_log_with_events_disabled)
          else went_on_or ArgumentsError.log_file_error
              (with_field (λ f. record r { log_file = some f }) (parse_file_arg file arg next)))
  unfolding Keeps
  logged-Keeps true file arg next r e g =
      went_on_or-Keeps ArgumentsError.log_file_error _ (log_file-AreGathered r file arg next g e)
  logged-Keeps false file arg next r e g = tt

  take_flag-Keeps :
      (f : Flag) (arg : Text) (next : Option Text) (r : StartupArguments)
      → IsGathered r
      → Keeps (take_flag is_alphanumeric resolve f arg next r)
  unfolding take_flag Keeps
  take_flag-Keeps Flag.help arg next r g = tt
  take_flag-Keeps Flag.version arg next r g = tt
  take_flag-Keeps Flag.verbose arg next r g = ground arith
  take_flag-Keeps Flag.silent arg next r g = ground arith
  take_flag-Keeps Flag.disable_events arg next r g = disable-Keeps r.log_file r refl g
  take_flag-Keeps Flag.log_file arg next r g =
      logged-Keeps r.events_enabled (unwrap_or_default r.log_file) arg next r refl g
  take_flag-Keeps Flag.listen arg next r g = went_on_or-Keeps ArgumentsError.socks5_listen_error _ (
      listen-AreGathered r
        (parse_socket_arg resolve r.socks5_bind_sockets arg next default_socks5_port) g
        (parse_socket_arg-AreDistinct resolve r.socks5_bind_sockets arg next default_socks5_port
          g.socks5))
  take_flag-Keeps Flag.management arg next r g =
      went_on_or-Keeps ArgumentsError.sandstorm_listen_error _ (
        management-AreGathered r
          (parse_socket_arg resolve r.sandstorm_bind_sockets arg next default_sandstorm_port) g
          (parse_socket_arg-AreDistinct resolve r.sandstorm_bind_sockets arg next
            default_sandstorm_port g.sandstorm))
  take_flag-Keeps Flag.users_file arg next r g =
      went_on_or-Keeps ArgumentsError.users_file_error _ (users_file-AreGathered r arg next g)
  take_flag-Keeps Flag.user arg next r g =
      went_on_or-Keeps ArgumentsError.new_user_error _ (user-AreGathered r arg next g)
  take_flag-Keeps Flag.auth_enable arg next r g =
      went_on_or-Keeps ArgumentsError.auth_toggle_error _ (auth-AreGathered r true arg next g)
  take_flag-Keeps Flag.auth_disable arg next r g =
      went_on_or-Keeps ArgumentsError.auth_toggle_error _ (auth-AreGathered r false arg next g)
  take_flag-Keeps Flag.buffer_size arg next r g =
      went_on_or-Keeps ArgumentsError.buffer_size_error _ (size-AreGathered r arg next g)

  take_found-Keeps :
      (o : Option Flag) (arg : Text) (next : Option Text) (r : StartupArguments)
      → IsGathered r
      → Keeps (take_found is_alphanumeric resolve o arg next r)
  unfolding take_found Keeps
  take_found-Keeps (some f) arg next r g = take_flag-Keeps f arg next r g
  take_found-Keeps none arg next r g = tt

  take_arg-Keeps :
      (arg : Text) (next : Option Text) (r : StartupArguments)
      → IsGathered r
      → Keeps (take_arg is_alphanumeric resolve arg next r)
  unfolding take_arg Keeps
  take_arg-Keeps arg next r g = elim (Bool-cases (is_empty arg)) [
    | inl e ↦ rw e g
    | inr e ↦ rw e (take_found-Keeps (flag_of flags arg) arg next r g)
  ]

  round_last :
      (o : Round)
      → Keeps o
      → IsStarting (elim o as (λ x. Result ArgumentsRequest ArgumentsError) [
        | Round.returns o ↦ o
        | Round.goes_on r' ↦ finish is_alphanumeric resolve r'
        | Round.went_on r' ↦ finish is_alphanumeric resolve r'
      ])
  unfolding Keeps
  round_last (Round.returns o) k = k
  round_last (Round.goes_on r) k = defaults-IsComplete r k
  round_last (Round.went_on r) k = defaults-IsComplete r k

  round_more :
      (o : Round) (args args2 : List Text)
      → Keeps o
      → ((r : StartupArguments)
          → IsGathered r
          → IsStarting (take_args is_alphanumeric resolve args r))
      → ((r : StartupArguments)
          → IsGathered r
          → IsStarting (take_args is_alphanumeric resolve args2 r))
      → IsStarting (elim o as (λ x. Result ArgumentsRequest ArgumentsError) [
        | Round.returns o ↦ o
        | Round.goes_on r' ↦ take_args is_alphanumeric resolve args r'
        | Round.went_on r' ↦ take_args is_alphanumeric resolve args2 r'
      ])
  unfolding Keeps
  round_more (Round.returns o) args args2 k f g = k
  round_more (Round.goes_on r) args args2 k f g = f r k
  round_more (Round.went_on r) args args2 k f g = g r k

  take_args-IsStarting :
      (args : List Text) (r : StartupArguments)
      → IsGathered r
      → IsStarting (take_args is_alphanumeric resolve args r)
  unfolding take_args
  take_args-IsStarting [] r g = defaults-IsComplete r g
  take_args-IsStarting (arg ∷ []) r g =
      round_last (take_arg is_alphanumeric resolve arg none r) (take_arg-Keeps arg none r g)
  take_args-IsStarting (arg ∷ arg2 ∷ args) r g =
      round_more (take_arg is_alphanumeric resolve arg (some arg2) r) (arg2 ∷ args) args
        (take_arg-Keeps arg (some arg2) r g) (take_args-IsStarting (arg2 ∷ args))
        (take_args-IsStarting args)

  -- Whatever the arguments, if they ask for a server then it has at least one address of each kind and none
  -- twice, a file for its users, and a buffer size that is not 0 and has 32 bits; a log file has a name and
  -- goes with events only, and without events nothing is printed; and no name has two users, and names and
  -- passwords are not empty and of at most 258 bytes.
  pub parse_arguments-IsStarting :
      (args : List Text) → IsStarting (parse_arguments is_alphanumeric resolve args)
  unfolding parse_arguments
  parse_arguments-IsStarting [] = defaults-IsComplete no_arguments no_arguments-IsGathered
  parse_arguments-IsStarting (name ∷ args) =
      take_args-IsStarting args no_arguments no_arguments-IsGathered
