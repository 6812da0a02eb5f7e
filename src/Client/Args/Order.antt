-- ===== src/Client/Args/Order.antt =====
-- The requests of a command line that sandstorm/src/args.rs parses, in their order.
use dust_devil.Base.{
  str_eq, str_eq_iff, ltb, ℕ, ◌≤◌, ◌≡◌, refl, sym, ap, ◌∙◌, Bool, true, false, Option, none, some,
  List, [], ◌∷◌, ◌++◌, append-nil, append_assoc, map, arith,
}
use dust_devil.Io.{Text, text, Error}
use dust_devil.Utf8.{byte_len}
use dust_devil.Serialize.Addresses.{SocketAddr}
use dust_devil.Serialize.Containers.{Result}
use dust_devil.Protocol.Users.{UserRole, regular}
use dust_devil.Protocol.Socks.{AuthMethod, no_auth, username_and_password}
use dust_devil.Protocol.BufferSize.{to_ascii_lowercase, parse_pretty_buffer_size}
use dust_devil.Args.{flag_of, eq_ignore_ascii_case, parse_socket_arg}
use dust_devil.Client.Args.Users.{is_empty, parse_into_user}
use dust_devil.Client.Args.Options.{
  Variable, added_user_of, updated_user_of, parse_credentials, credentials_of, parse_auth_arg,
  parse_buffer_size_arg,
}
use dust_devil.Client.Args.{
  CommandRequest, StartupArguments, ArgumentsRequest, no_arguments, fill_empty_fields_with_defaults,
  default_socks5_port, default_sandstorm_port,
}
use dust_devil.Client.Args.Parse.{
  Flag, flags, Round, push, take_flag, take_found, take_arg, finish, take_args, parse_arguments,
}

-- The four options that take addresses.
pub data AddressOption : Type 0 where
  add_socks5 remove_socks5 add_sandstr remove_sandstr : AddressOption

abbrev pub address_flag : AddressOption → Flag
address_flag AddressOption.add_socks5 = Flag.add_socks5
address_flag AddressOption.remove_socks5 = Flag.remove_socks5
address_flag AddressOption.add_sandstr = Flag.add_sandstr
address_flag AddressOption.remove_sandstr = Flag.remove_sandstr

abbrev pub request_at : AddressOption → SocketAddr → CommandRequest
request_at AddressOption.add_socks5 = CommandRequest.add_socks5_socket
request_at AddressOption.remove_socks5 = CommandRequest.remove_socks5_socket
request_at AddressOption.add_sandstr = CommandRequest.add_sandstorm_socket
request_at AddressOption.remove_sandstr = CommandRequest.remove_sandstorm_socket

abbrev pub port_of : AddressOption → ℕ
port_of AddressOption.add_socks5 = default_socks5_port
port_of AddressOption.remove_socks5 = default_socks5_port
port_of AddressOption.add_sandstr = default_sandstorm_port
port_of AddressOption.remove_sandstr = default_sandstorm_port

abbrev pub toggle_flag : Bool → Flag
toggle_flag true = Flag.auth_enable
toggle_flag false = Flag.auth_disable

abbrev pub method_name : AuthMethod → Text
method_name no_auth = text "noauth"
method_name username_and_password = text "userpass"

-- The word names the option.
abbrev pub Names : Text → Flag → Type 0
Names w f = flag_of flags w ≡ some f

nothing_named : flag_of flags [] ≡ none
unfolding flag_of str_eq
nothing_named = refl

named_nonempty : (f : Flag) → ¬ Names [] f
named_nonempty f h = none-ne-some (sym nothing_named ∙ h)
  where
    none-ne-some : none ≡ some f → ⊥
    none-ne-some e = cc e

not_noauth :
    (arg : Text)
    → eq_ignore_ascii_case arg (text "userpass") ≡ true
    → eq_ignore_ascii_case arg (text "noauth") ≡ false
unfolding eq_ignore_ascii_case str_eq
not_noauth arg h = let e = (str_eq_iff (map to_ascii_lowercase arg) (text "userpass")).0 h in rw e

module _ (is_alphanumeric : ℕ → Bool) (resolve : Text → Result (List SocketAddr) Error) where
  -- Words, and the requests that they ask for.
  pub data Asks : List Text → List CommandRequest → Type 0 where
    end : Asks [] []
    blank : {ws : List Text} {qs : List CommandRequest} → Asks ws qs → Asks ([] ∷ ws) qs
    alone :
        {ws : List Text} {qs : List CommandRequest} (w : Text) (q : CommandRequest)
        → Names w (Flag.asks q)
        → Asks ws qs
        → Asks (w ∷ ws) (q ∷ qs)
    addresses :
        {ws : List Text} {qs : List CommandRequest} (o : AddressOption) (w arg : Text)
        (found : List SocketAddr)
        → Names w (address_flag o)
        → parse_socket_arg resolve [] w (some arg) (port_of o) ≡ Result.ok found
        → Asks ws qs
        → Asks (w ∷ arg ∷ ws) (map (request_at o) found ++ qs)
    adds :
        {ws : List Text} {qs : List CommandRequest} (w arg name password : Text) (role : UserRole)
        → Names w Flag.add_user
        → parse_into_user is_alphanumeric arg ≡ Result.ok (name, some password, some role)
        → Asks ws qs
        → Asks (w ∷ arg ∷ ws) (CommandRequest.add_user name password role ∷ qs)
    adds_regular :
        {ws : List Text} {qs : List CommandRequest} (w arg name password : Text)
        → Names w Flag.add_user
        → parse_into_user is_alphanumeric arg ≡ Result.ok (name, some password, none)
        → Asks ws qs
        → Asks (w ∷ arg ∷ ws) (CommandRequest.add_user name password regular ∷ qs)
    updates_password :
        {ws : List Text} {qs : List CommandRequest} (w arg name password : Text)
        (role : Option UserRole)
        → Names w Flag.update_user
        → parse_into_user is_alphanumeric arg ≡ Result.ok (name, some password, role)
        → Asks ws qs
        → Asks (w ∷ arg ∷ ws) (CommandRequest.update_user name (some password) role ∷ qs)
    updates_role :
        {ws : List Text} {qs : List CommandRequest} (w arg name : Text) (role : UserRole)
        → Names w Flag.update_user
        → parse_into_user is_alphanumeric arg ≡ Result.ok (name, none, some role)
        → Asks ws qs
        → Asks (w ∷ arg ∷ ws) (CommandRequest.update_user name none (some role) ∷ qs)
    deletes :
        {ws : List Text} {qs : List CommandRequest} (w arg : Text)
        → Names w Flag.delete_user
        → is_empty arg ≡ false
        → byte_len arg ≤ 255
        → Asks ws qs
        → Asks (w ∷ arg ∷ ws) (CommandRequest.delete_user arg ∷ qs)
    toggles :
        {ws : List Text} {qs : List CommandRequest} (w arg : Text) (m : AuthMethod) (enable : Bool)
        → Names w (toggle_flag enable)
        → eq_ignore_ascii_case arg (method_name m) ≡ true
        → Asks ws qs
        → Asks (w ∷ arg ∷ ws) (CommandRequest.toggle_auth_method m enable ∷ qs)
    sets_size :
        {ws : List Text} {qs : List CommandRequest} (w arg : Text) (n : ℕ)
        → Names w Flag.set_buffer_size
        → parse_pretty_buffer_size arg ≡ Result.ok n
        → Asks ws qs
        → Asks (w ∷ arg ∷ ws) (CommandRequest.set_buffer_size n ∷ qs)

  found_arg :
      (w : Text) (f : Flag) (next : Option Text) (r : StartupArguments)
      → Names w f
      → take_arg is_alphanumeric resolve w next r ≡ take_flag is_alphanumeric resolve f w next r
  unfolding take_arg take_found
  found_arg [] f next r h = absurd (named_nonempty f h)
  found_arg (c ∷ w) f next r h = rw h

  module _ (variable : Variable) where
    then_goes :
        (w : Text) (r r' : StartupArguments) (ws : List Text)
        → ((next : Option Text) → take_arg is_alphanumeric resolve w next r ≡ Round.goes_on r')
        → take_args is_alphanumeric resolve variable (w ∷ ws) r
          ≡ take_args is_alphanumeric resolve variable ws r'
    unfolding take_args
    then_goes w r r' [] h = ground (arith, h none)
    then_goes w r r' (m ∷ ws) h = ground (arith, h (some m))

    then_went :
        (w arg : Text) (f : Flag) (r r' : StartupArguments) (ws : List Text)
        → Names w f
        → take_flag is_alphanumeric resolve f w (some arg) r ≡ Round.went_on r'
        → take_args is_alphanumeric resolve variable (w ∷ arg ∷ ws) r
          ≡ take_args is_alphanumeric resolve variable ws r'
    unfolding take_args
    then_went w arg f r r' ws n h = ground (arith, found_arg w f (some arg) r n, h)

    -- The requests join those that are there, in order.
    abbrev Joins : List Text → List CommandRequest → Type 0
    Joins ws qs =
        (r : StartupArguments)
        → take_args is_alphanumeric resolve variable ws r
          ≡ finish is_alphanumeric resolve variable (push qs r)

    joined :
        (ws : List Text) (qs more : List CommandRequest) (r : StartupArguments)
        → Joins ws qs
        → take_args is_alphanumeric resolve variable ws (push more r)
          ≡ finish is_alphanumeric resolve variable (push (more ++ qs) r)
    joined ws qs more r h =
        h (push more r)
        ∙ ap (λ l. finish is_alphanumeric resolve variable (record r { requests = l }))
            (append_assoc r.requests more qs)

    address-Joins :
        (o : AddressOption) (w arg : Text) (found : List SocketAddr) (ws : List Text)
        (qs : List CommandRequest) (r : StartupArguments)
        → Names w (address_flag o)
        → parse_socket_arg resolve [] w (some arg) (port_of o) ≡ Result.ok found
        → Joins ws qs
        → take_args is_alphanumeric resolve variable (w ∷ arg ∷ ws) r
          ≡ finish is_alphanumeric resolve variable (push (map (request_at o) found ++ qs) r)
    unfolding take_flag
    address-Joins AddressOption.add_socks5 w arg found ws qs r n h j =
        then_went w arg Flag.add_socks5 r _ ws n (rw h)
        ∙ joined ws qs (map CommandRequest.add_socks5_socket found) r j
    address-Joins AddressOption.remove_socks5 w arg found ws qs r n h j =
        then_went w arg Flag.remove_socks5 r _ ws n (rw h)
        ∙ joined ws qs (map CommandRequest.remove_socks5_socket found) r j
    address-Joins AddressOption.add_sandstr w arg found ws qs r n h j =
        then_went w arg Flag.add_sandstr r _ ws n (rw h)
        ∙ joined ws qs (map CommandRequest.add_sandstorm_socket found) r j
    address-Joins AddressOption.remove_sandstr w arg found ws qs r n h j =
        then_went w arg Flag.remove_sandstr r _ ws n (rw h)
        ∙ joined ws qs (map CommandRequest.remove_sandstorm_socket found) r j

    blank_goes :
        (next : Option Text) (r : StartupArguments)
        → take_arg is_alphanumeric resolve [] next r ≡ Round.goes_on r
    unfolding take_arg
    blank_goes next r = refl

    nothing-Joins : Joins [] []
    unfolding take_args
    nothing-Joins r =
        ap (λ l. finish is_alphanumeric resolve variable (record r { requests = l }))
          (sym (append-nil r.requests))

    -- One request behind an option with its argument.
    one_more :
        (w arg : Text) (f : Flag) (q : CommandRequest) (ws : List Text) (qs : List CommandRequest)
        (r : StartupArguments)
        → Names w f
        → take_flag is_alphanumeric resolve f w (some arg) r ≡ Round.went_on (push (q ∷ []) r)
        → Joins ws qs
        → take_args is_alphanumeric resolve variable (w ∷ arg ∷ ws) r
          ≡ finish is_alphanumeric resolve variable (push (q ∷ qs) r)
    one_more w arg f q ws qs r n e j =
        then_went w arg f r (push (q ∷ []) r) ws n e ∙ joined ws qs (q ∷ []) r j

    deletes_one :
        (w arg : Text) (r : StartupArguments)
        → is_empty arg ≡ false
        → byte_len arg ≤ 255
        → take_flag is_alphanumeric resolve Flag.delete_user w (some arg) r
          ≡ Round.went_on (push (CommandRequest.delete_user arg ∷ []) r)
    unfolding take_flag
    deletes_one w arg r e b =
        let small : ltb 255 (byte_len arg) ≡ false = ground (arith, b) in rw (e, small)

    toggles_one :
        (w arg : Text) (m : AuthMethod) (enable : Bool) (r : StartupArguments)
        → eq_ignore_ascii_case arg (method_name m) ≡ true
        → take_flag is_alphanumeric resolve (toggle_flag enable) w (some arg) r
          ≡ Round.went_on (push (CommandRequest.toggle_auth_method m enable ∷ []) r)
    unfolding take_flag parse_auth_arg
    toggles_one w arg no_auth true r e = rw e
    toggles_one w arg no_auth false r e = rw e
    toggles_one w arg username_and_password true r e = rw (not_noauth arg e, e)
    toggles_one w arg username_and_password false r e = rw (not_noauth arg e, e)

    Asks-Joins : {ws : List Text} {qs : List CommandRequest} → Asks ws qs → Joins ws qs
    unfolding take_flag added_user_of updated_user_of
    Asks-Joins end r = nothing-Joins r
    Asks-Joins (blank {ws} h) r = then_goes [] r r ws (λ next. blank_goes next r) ∙ Asks-Joins h r
    Asks-Joins (alone {ws} {qs} w q n h) r =
        then_goes w r (push (q ∷ []) r) ws (λ next. found_arg w (Flag.asks q) next r n)
        ∙ joined ws qs (q ∷ []) r (Asks-Joins h)
    Asks-Joins (addresses {ws} {qs} o w arg found n e h) r =
        address-Joins o w arg found ws qs r n e (Asks-Joins h)
    Asks-Joins (adds {ws} {qs} w arg name password role n e h) r =
        one_more w arg Flag.add_user _ ws qs r n (rw e) (Asks-Joins h)
    Asks-Joins (adds_regular {ws} {qs} w arg name password n e h) r =
        one_more w arg Flag.add_user _ ws qs r n (rw e) (Asks-Joins h)
    Asks-Joins (updates_password {ws} {qs} w arg name password role n e h) r =
        one_more w arg Flag.update_user _ ws qs r n (rw e) (Asks-Joins h)
    Asks-Joins (updates_role {ws} {qs} w arg name role n e h) r =
        one_more w arg Flag.update_user _ ws qs r n (rw e) (Asks-Joins h)
    Asks-Joins (deletes {ws} {qs} w arg n e b h) r =
        one_more w arg Flag.delete_user _ ws qs r n (deletes_one w arg r e b) (Asks-Joins h)
    Asks-Joins (toggles {ws} {qs} w arg m enable n e h) r =
        one_more w arg (toggle_flag enable) _ ws qs r n (toggles_one w arg m enable r e)
          (Asks-Joins h)
    Asks-Joins (sets_size {ws} {qs} w arg size n e h) r =
        one_more w arg Flag.set_buffer_size _ ws qs r n (rw (e, parse_buffer_size_arg))
          (Asks-Joins h)

    logs_in :
        (c : Text) (arg name password : Text) (r : StartupArguments)
        → Names c Flag.credentials
        → parse_into_user is_alphanumeric arg ≡ Result.ok (name, some password, none)
        → is_empty r.login_credentials.0 ≡ true
        → take_flag is_alphanumeric resolve Flag.credentials c (some arg) r
          ≡ Round.went_on (record r { login_credentials = (name, password) })
    unfolding take_flag parse_credentials credentials_of
    logs_in c arg name password r n e k = rw (k, e)

    -- A command line with credentials and then words that ask for requests comes to these requests, in the
    -- order of the words, for a user of this name and password at the default address.
    pub parse_arguments-Asks :
        (program c arg name password : Text) (ws : List Text) (qs : List CommandRequest)
        → Names c Flag.credentials
        → parse_into_user is_alphanumeric arg ≡ Result.ok (name, some password, none)
        → is_empty name ≡ false
        → Asks ws qs
        → parse_arguments is_alphanumeric resolve variable (program ∷ c ∷ arg ∷ ws)
          ≡ Result.ok (
              ArgumentsRequest.run (
                fill_empty_fields_with_defaults
                  (record no_arguments { login_credentials = (name, password); requests = qs })))
    unfolding parse_arguments finish
    parse_arguments-Asks program c arg name password ws qs n e k h =
        then_went c arg Flag.credentials no_arguments
          (record no_arguments { login_credentials = (name, password) }) ws n
          (logs_in c arg name password no_arguments n e refl)
        ∙ Asks-Joins h (record no_arguments { login_credentials = (name, password) })
        ∙ rw k
