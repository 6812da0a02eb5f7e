-- ===== src/Server/Args/Append.antt =====
-- Arguments behind arguments: `parse_arguments` of dust-devil/src/args.rs reads them from left to right.
use mathlib.Core.Path.{subst}
use dust_devil.Base.{
  ℕ, ◌≡◌, refl, ◌∙◌, Bool, Option, none, some, List, [], ◌∷◌, ◌++◌, arith, Bool-cases, inl, inr,
}
use dust_devil.Io.{Text, Error}
use dust_devil.Serialize.Addresses.{SocketAddr}
use dust_devil.Serialize.Containers.{Result}
use dust_devil.Args.{flag_of, parse_socket_arg}
use dust_devil.Server.UsersFile.{is_empty}
use dust_devil.Server.Args.{
  StartupArguments, ArgumentsRequest, ArgumentsError, no_arguments, fill_empty_fields_with_defaults,
  parse_file_arg, parse_auth_arg, parse_buffer_size_arg, parse_new_user_arg, Flag, flags, Round,
  is_some, went_on_or, take_flag, take_found, take_arg, finish, take_args, parse_arguments,
}

module _ (is_alphanumeric : ℕ → Bool) (resolve : Text → Result (List SocketAddr) Error) where
  -- A round that ends without an argument behind it has not asked for one.
  Alone : Round → Round → Type 0
  Alone (Round.returns o) n = Unit
  Alone (Round.goes_on r) n = n ≡ Round.goes_on r
  Alone (Round.went_on r) n = ⊥

  take_flag-Alone :
      (f : Flag) (arg : Text) (next : Option Text) (r : StartupArguments)
      → Alone
          (take_flag is_alphanumeric resolve f arg none r)
          (take_flag is_alphanumeric resolve f arg next r)
  unfolding take_flag Alone parse_file_arg parse_socket_arg parse_auth_arg parse_buffer_size_arg
      parse_new_user_arg
  take_flag-Alone Flag.verbose arg next r = refl
  take_flag-Alone Flag.silent arg next r = refl
  take_flag-Alone Flag.disable_events arg next r = ground arith
  take_flag-Alone Flag.log_file arg next r = ground arith
  take_flag-Alone f arg next r = tt

  take_found-Alone :
      (o : Option Flag) (arg : Text) (next : Option Text) (r : StartupArguments)
      → Alone
          (take_found is_alphanumeric resolve o arg none r)
          (take_found is_alphanumeric resolve o arg next r)
  unfolding take_found Alone
  take_found-Alone none arg next r = tt
  take_found-Alone (some f) arg next r = take_flag-Alone f arg next r

  take_arg-Alone :
      (arg : Text) (next : Option Text) (r : StartupArguments)
      → Alone
          (take_arg is_alphanumeric resolve arg none r)
          (take_arg is_alphanumeric resolve arg next r)
  unfolding take_arg Alone
  take_arg-Alone arg next r = elim (Bool-cases (is_empty arg)) [
    | inl e ↦ rw e refl
    | inr e ↦ rw e (take_found-Alone (flag_of flags arg) arg next r)
  ]

  -- After arguments that come to a server, what follows is taken from where they led.
  Leads : List Text → StartupArguments → Result ArgumentsRequest ArgumentsError → Type 0
  Leads args r (Result.ok (ArgumentsRequest.run a)) =
      (b : StartupArguments) × (a ≡ fill_empty_fields_with_defaults b)
      × ((more : List Text)
          → take_args is_alphanumeric resolve (args ++ more) r
            ≡ take_args is_alphanumeric resolve more b)
  Leads args r _ = Unit

  -- A round never returns a server.
  Stops : Round → Type 0
  Stops (Round.returns (Result.ok (ArgumentsRequest.run a))) = ⊥
  Stops _ = Unit

  went_on_or-Stops :
      {E : Type 0} (wrap : E → ArgumentsError) (o : Result StartupArguments E)
      → Stops (went_on_or wrap o)
  unfolding Stops
  went_on_or-Stops wrap (Result.ok r) = tt
  went_on_or-Stops wrap (Result.err e) = tt

  take_flag-Stops :
      (f : Flag) (arg : Text) (next : Option Text) (r : StartupArguments)
      → Stops (take_flag is_alphanumeric resolve f arg next r)
  unfolding take_flag Stops
  take_flag-Stops Flag.help arg next r = tt
  take_flag-Stops Flag.version arg next r = tt
  take_flag-Stops Flag.verbose arg next r = tt
  take_flag-Stops Flag.silent arg next r = tt
  take_flag-Stops Flag.disable_events arg next r = elim (Bool-cases (is_some r.log_file)) [
    | inl e ↦ rw e tt
    | inr e ↦ rw e tt
  ]
  take_flag-Stops Flag.log_file arg next r = elim (Bool-cases r.events_enabled) [
    | inl e ↦ rw e (went_on_or-Stops ArgumentsError.log_file_error _)
    | inr e ↦ rw e tt
  ]
  take_flag-Stops Flag.listen arg next r = went_on_or-Stops ArgumentsError.socks5_listen_error _
  take_flag-Stops Flag.management arg next r =
      went_on_or-Stops ArgumentsError.sandstorm_listen_error _
  take_flag-Stops Flag.users_file arg next r = went_on_or-Stops ArgumentsError.users_file_error _
  take_flag-Stops Flag.user arg next r = went_on_or-Stops ArgumentsError.new_user_error _
  take_flag-Stops Flag.auth_enable arg next r = went_on_or-Stops ArgumentsError.auth_toggle_error _
  take_flag-Stops Flag.auth_disable arg next r = went_on_or-Stops ArgumentsError.auth_toggle_error _
  take_flag-Stops Flag.buffer_size arg next r = went_on_or-Stops ArgumentsError.buffer_size_error _

  take_found-Stops :
      (o : Option Flag) (arg : Text) (next : Option Text) (r : StartupArguments)
      → Stops (take_found is_alphanumeric resolve o arg next r)
  unfolding take_found Stops
  take_found-Stops none arg next r = tt
  take_found-Stops (some f) arg next r = take_flag-Stops f arg next r

  take_arg-Stops :
      (arg : Text) (next : Option Text) (r : StartupArguments)
      → Stops (take_arg is_alphanumeric resolve arg next r)
  unfolding take_arg Stops
  take_arg-Stops arg next r = elim (Bool-cases (is_empty arg)) [
    | inl e ↦ rw e tt
    | inr e ↦ rw e (take_found-Stops (flag_of flags arg) arg next r)
  ]

  then_goes :
      (arg : Text) (r r' : StartupArguments) (more : List Text) (n : Round)
      → ((next : Option Text) → take_arg is_alphanumeric resolve arg next r ≡ Round.goes_on r')
      → take_args is_alphanumeric resolve (arg ∷ more) r ≡ take_args is_alphanumeric resolve more r'
  unfolding take_args
  then_goes arg r r' [] n h = ground (arith, h none)
  then_goes arg r r' (m ∷ more) n h = ground (arith, h (some m))

  then_returns :
      (args : List Text) (r : StartupArguments) (o : Result ArgumentsRequest ArgumentsError)
      → Stops (Round.returns o)
      → Leads args r o
  unfolding Stops Leads
  then_returns args r (Result.ok ArgumentsRequest.help) s = tt
  then_returns args r (Result.ok ArgumentsRequest.version) s = tt
  then_returns args r (Result.ok (ArgumentsRequest.run a)) s = absurd s
  then_returns args r (Result.err e) s = tt

  last_leads :
      (arg : Text) (r : StartupArguments) (o : Round)
      → take_arg is_alphanumeric resolve arg none r ≡ o
      → Stops o
      → ((next : Option Text) → Alone o (take_arg is_alphanumeric resolve arg next r))
      → Leads (arg ∷ []) r (elim o as (λ x. Result ArgumentsRequest ArgumentsError) [
        | Round.returns o ↦ o
        | Round.goes_on r' ↦ finish is_alphanumeric resolve r'
        | Round.went_on r' ↦ finish is_alphanumeric resolve r'
      ])
  unfolding Alone Leads
  last_leads arg r (Round.returns o) e s a = then_returns (arg ∷ []) r o s
  last_leads arg r (Round.goes_on r') e s a =
      (r', refl, λ more. then_goes arg r r' more (Round.goes_on r') a)
  last_leads arg r (Round.went_on r') e s a = absurd (a none)

  leads_on :
      (args args2 : List Text) (r r' : StartupArguments)
      (o : Result ArgumentsRequest ArgumentsError)
      → ((more : List Text)
          → take_args is_alphanumeric resolve (args ++ more) r
            ≡ take_args is_alphanumeric resolve (args2 ++ more) r')
      → Leads args2 r' o
      → Leads args r o
  unfolding Leads
  leads_on args args2 r r' (Result.ok (ArgumentsRequest.run a)) h (b, e, k) =
      (b, e, λ more. h more ∙ k more)
  leads_on args args2 r r' (Result.ok ArgumentsRequest.help) h k = tt
  leads_on args args2 r r' (Result.ok ArgumentsRequest.version) h k = tt
  leads_on args args2 r r' (Result.err e) h k = tt

  round_leads :
      (arg arg2 : Text) (args : List Text) (r : StartupArguments) (o : Round)
      → take_arg is_alphanumeric resolve arg (some arg2) r ≡ o
      → Stops o
      → ((r' : StartupArguments)
          → Leads (arg2 ∷ args) r' (take_args is_alphanumeric resolve (arg2 ∷ args) r'))
      → ((r' : StartupArguments) → Leads args r' (take_args is_alphanumeric resolve args r'))
      → Leads (arg ∷ arg2 ∷ args) r (elim o as (λ x. Result ArgumentsRequest ArgumentsError) [
        | Round.returns o ↦ o
        | Round.goes_on r' ↦ take_args is_alphanumeric resolve (arg2 ∷ args) r'
        | Round.went_on r' ↦ take_args is_alphanumeric resolve args r'
      ])
  unfolding take_args
  round_leads arg arg2 args r (Round.returns o) e s f g = then_returns (arg ∷ arg2 ∷ args) r o s
  round_leads arg arg2 args r (Round.goes_on r') e s f g =
      leads_on (arg ∷ arg2 ∷ args) (arg2 ∷ args) r r' _ (λ more. ground (arith, e)) (f r')
  round_leads arg arg2 args r (Round.went_on r') e s f g =
      leads_on (arg ∷ arg2 ∷ args) args r r' _ (λ more. ground (arith, e)) (g r')

  take_args-Leads :
      (args : List Text) (r : StartupArguments)
      → Leads args r (take_args is_alphanumeric resolve args r)
  unfolding take_args Leads
  take_args-Leads [] r = (r, refl, λ more. refl)
  take_args-Leads (arg ∷ []) r =
      last_leads arg r (take_arg is_alphanumeric resolve arg none r) refl
        (take_arg-Stops arg none r) (λ next. take_arg-Alone arg next r)
  take_args-Leads (arg ∷ arg2 ∷ args) r =
      round_leads arg arg2 args r (take_arg is_alphanumeric resolve arg (some arg2) r) refl
        (take_arg-Stops arg (some arg2) r) (take_args-Leads (arg2 ∷ args)) (take_args-Leads args)

  served :
      (args : List Text) (r a : StartupArguments) (o : Result ArgumentsRequest ArgumentsError)
      → Leads args r o
      → o ≡ Result.ok (ArgumentsRequest.run a)
      → Leads args r (Result.ok (ArgumentsRequest.run a))
  served args r a o l e = subst (Leads args r) e l

  -- Where the arguments come to a server, they have led to values that the server's are with the defaults
  -- filled in, and whatever arguments stand behind them are taken from these values on.
  pub parse_arguments-append :
      (name : Text) (args : List Text) (a : StartupArguments)
      → parse_arguments is_alphanumeric resolve (name ∷ args) ≡ Result.ok (ArgumentsRequest.run a)
      → (b : StartupArguments) × (a ≡ fill_empty_fields_with_defaults b)
        × ((more : List Text)
            → parse_arguments is_alphanumeric resolve (name ∷ (args ++ more))
              ≡ take_args is_alphanumeric resolve more b)
  unfolding parse_arguments Leads
  parse_arguments-append name args a h =
      served args no_arguments a (take_args is_alphanumeric resolve args no_arguments)
        (take_args-Leads args no_arguments) h
