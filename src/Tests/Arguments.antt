-- ===== src/Tests/Arguments.antt =====
-- Command lines of both programs at concrete values.
use dust_devil.Base.{◌≡◌, refl, true, some, none, List, [], ◌∷◌, ◌++◌, arith, str_eq}
use dust_devil.Io.{Text, Error, ErrorKind, error_new, text}
use dust_devil.Serialize.Addresses.{SocketAddr, v4}
use dust_devil.Serialize.Containers.{Result}
use dust_devil.Protocol.BufferSize.{parse_pretty_buffer_size, is_ascii_alphanumeric}
use dust_devil.Server.Args.{
  StartupArguments, ArgumentsRequest, ArgumentsError, no_arguments, fill_empty_fields_with_defaults,
  take_args, parse_arguments,
}
use dust_devil.Server.Args.Laws.{IsStarting, parse_arguments-IsStarting}
use dust_devil.Server.Args.Append.{parse_arguments-append}
use dust_devil.Utf8.{byte_len, as_bytes, encode_char}
use dust_devil.Server.UsersFile.RoundTrip.{escape_text}
use dust_devil.Protocol.Users.{admin, regular, into_role_char}
use dust_devil.Protocol.Socks.{no_auth}
use dust_devil.Args.{flag_of, parse_socket_arg}
use dust_devil.Client.Args as Command
use dust_devil.Client.Args.{CommandRequest}
use dust_devil.Client.Args.Options.{Variable}
use dust_devil.Client.Args.Parse
use dust_devil.Client.Args.Parse.{flags}
use dust_devil.Client.Args.Users.{parse_into_user}
use dust_devil.Client.Args.Users.RoundTrip.{parse_into_user-escape}
use dust_devil.Client.Args.Order.{
  AddressOption, Names, Asks, end, blank, alone, addresses, adds, deletes, toggles, sets_size,
  parse_arguments-Asks,
}

abbrev home : SocketAddr
home = v4 (record { ip = 127 ∷ 0 ∷ 0 ∷ 1 ∷ []; port = 1080 })

-- A system that knows one host, with the port written.
abbrev resolver : Text → Result (List SocketAddr) Error
resolver (c ∷ d ∷ s) = Result.ok (home ∷ home ∷ [])
resolver s = Result.err (error_new ErrorKind.invalid_input [])

abbrev line : List Text
line = text "-l" ∷ text "h" ∷ text "" ∷ text "-V1" ∷ []

abbrev asked_for : List Text
asked_for = text "-b" ∷ text "4k" ∷ text "--LISTEN" ∷ text "h" ∷ []

abbrev asked_values : StartupArguments
asked_values = record no_arguments { buffer_size = 4096; socks5_bind_sockets = home ∷ [] }

asked_line :
    parse_arguments is_ascii_alphanumeric resolver (text "dust-devil" ∷ asked_for)
    ≡ Result.ok (ArgumentsRequest.run (fill_empty_fields_with_defaults asked_values))
unfolding parse_arguments is_ascii_alphanumeric str_eq parse_pretty_buffer_size
asked_line = refl

parse_arguments-append_example :
    (b : StartupArguments) × (fill_empty_fields_with_defaults asked_values
      ≡ fill_empty_fields_with_defaults b)
    × ((more : List Text)
        → parse_arguments is_ascii_alphanumeric resolver (text "dust-devil" ∷ (asked_for ++ more))
          ≡ take_args is_ascii_alphanumeric resolver more b)
parse_arguments-append_example =
    parse_arguments-append is_ascii_alphanumeric resolver (text "dust-devil") asked_for
      (fill_empty_fields_with_defaults asked_values) asked_line

parse_arguments-IsStarting_example :
    IsStarting (parse_arguments is_ascii_alphanumeric resolver (text "dust-devil" ∷ asked_for))
parse_arguments-IsStarting_example =
    parse_arguments-IsStarting is_ascii_alphanumeric resolver (text "dust-devil" ∷ asked_for)

-- A name that is no option.
unknown_line :
    parse_arguments is_ascii_alphanumeric resolver (text "dust-devil" ∷ line)
    ≡ Result.err (ArgumentsError.unknown_argument (text "-V1"))
unfolding parse_arguments str_eq
unknown_line = refl

-- A name and a password that hold a colon and a backslash.
parse_into_user-escape_example :
    parse_into_user is_ascii_alphanumeric (text "@ada\\:l:p\\\\w")
    ≡ Result.ok (text "ada:l", some (text "p\\w"), some admin)
unfolding is_ascii_alphanumeric byte_len as_bytes encode_char into_role_char escape_text
parse_into_user-escape_example =
    parse_into_user-escape is_ascii_alphanumeric admin (text "ada:l") (text "p\\w") refl refl refl
      refl (omega arith) (omega arith)

abbrev commands : List CommandRequest
commands =
    CommandRequest.meow
    ∷ CommandRequest.add_socks5_socket home
    ∷ CommandRequest.add_user (text "bo") (text "pw") regular
    ∷ CommandRequest.delete_user (text "al")
    ∷ CommandRequest.toggle_auth_method no_auth true
    ∷ CommandRequest.set_buffer_size 4096
    ∷ []

abbrev command_words : List Text
command_words =
    text "-w"
    ∷ text ""
    ∷ text "--ADD-SOCKS5"
    ∷ text "h"
    ∷ text "-u"
    ∷ text "#bo:pw"
    ∷ text "-d"
    ∷ text "al"
    ∷ text "-A"
    ∷ text "NoAuth"
    ∷ text "-b"
    ∷ text "4k"
    ∷ []

abbrev resolver_of_one : Text → Result (List SocketAddr) Error
resolver_of_one s = Result.ok (home ∷ home ∷ [])

commands-Asks : Asks is_ascii_alphanumeric resolver_of_one command_words commands
unfolding flag_of parse_socket_arg parse_into_user parse_pretty_buffer_size is_ascii_alphanumeric
    str_eq byte_len as_bytes encode_char
commands-Asks = alone (text "-w") CommandRequest.meow refl (
    blank (
      addresses AddressOption.add_socks5 (text "--ADD-SOCKS5") (text "h") (home ∷ []) refl refl (
        adds (text "-u") (text "#bo:pw") (text "bo") (text "pw") regular refl refl (
          deletes (text "-d") (text "al") refl refl (omega arith) (
            toggles (text "-A") (text "NoAuth") no_auth true refl refl
              (sets_size (text "-b") (text "4k") 4096 refl refl end))))))

credentials_named : Names (text "--credentials") Parse.Flag.credentials
unfolding flag_of str_eq
credentials_named = refl

credentials_parsed :
    parse_into_user is_ascii_alphanumeric (text "ann:pw")
    ≡ Result.ok (text "ann", some (text "pw"), none)
unfolding parse_into_user is_ascii_alphanumeric byte_len as_bytes encode_char
credentials_parsed = refl

parse_arguments-Asks_example :
    Parse.parse_arguments is_ascii_alphanumeric resolver_of_one Variable.not_present
      (text "sandstorm" ∷ text "--credentials" ∷ text "ann:pw" ∷ command_words)
    ≡ Result.ok (
        Command.ArgumentsRequest.run (
          Command.fill_empty_fields_with_defaults (record Command.no_arguments {
            login_credentials = (text "ann", text "pw");
            requests = commands;
          })))
parse_arguments-Asks_example =
    parse_arguments-Asks is_ascii_alphanumeric resolver_of_one Variable.not_present
      (text "sandstorm") (text "--credentials") (text "ann:pw") (text "ann") (text "pw")
      command_words commands credentials_named credentials_parsed refl commands-Asks
