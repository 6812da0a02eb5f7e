-- ===== src/Tests/Commands.antt =====
-- A command line of the client, and the server that runs it.
use dust_devil.Base.{◌≡◌, refl, true, some, List, [], ◌∷◌, map, All, arith, str_eq, inl}
use dust_devil.Io.{Text, Error, text, ok}
use dust_devil.Utf8.{byte_len, as_bytes, encode_char}
use dust_devil.Serialize.Addresses.{SocketAddr}
use dust_devil.Serialize.Containers.{Result}
use dust_devil.Serialize.Texts.Laws.{IsText}
use dust_devil.Protocol.BufferSize.{is_ascii_alphanumeric}
use dust_devil.Protocol.Users.{admin}
use dust_devil.Protocol.Requests.{Request}
use dust_devil.Protocol.Requests.Laws.{IsRequest}
use dust_devil.Args.{flag_of}
use dust_devil.Server.Context.{manager_login}
use dust_devil.Server.Sandstorm.{Session, handle_sandstorm_inner, log_in}
use dust_devil.Server.Sandstorm.Laws.{run_commands}
use dust_devil.Client.Args.{CommandRequest, StartupArguments, ArgumentsRequest}
use dust_devil.Client.Args.Options.{Variable}
use dust_devil.Client.Args.Parse.{parse_arguments}
use dust_devil.Client.Args.Users.{parse_into_user}
use dust_devil.Client.Args.Order.{Asks, end, alone, deletes}
use dust_devil.Client.Requests.{request_of_command}
use dust_devil.Client.Program.{run_client_inner}
use dust_devil.Client.Program.Laws.{answer, allowed, command_line_runs}

abbrev ann : Text
ann = text "ann"

abbrev pw : Text
pw = text "pw"

abbrev session : Session
session = record {
  manager_id = 4;
  world = record {
    state = record {
      users = record {
        users = (ann, record { password = pw; role = admin }) ∷ [];
        admin_count = 1;
      };
      no_auth_enabled = true;
      userpass_auth_enabled = true;
      buffer_size = 8192;
      has_metrics = true;
    };
    has_logger = true;
    events = [];
  };
  messages = [];
  notifications = [];
}

abbrev nowhere : Text → Result (List SocketAddr) Error
nowhere s = Result.ok []

abbrev words : List Text
words = text "-d" ∷ pw ∷ text "--meow" ∷ []

abbrev wanted : List CommandRequest
wanted = CommandRequest.delete_user pw ∷ CommandRequest.meow ∷ []

wanted-Asks : Asks is_ascii_alphanumeric nowhere words wanted
unfolding flag_of str_eq byte_len as_bytes encode_char
wanted-Asks =
    deletes (text "-d") pw refl refl (omega arith)
      (alone (text "--meow") CommandRequest.meow refl end)

ann-IsText : IsText 255 ann
unfolding byte_len as_bytes encode_char
ann-IsText = record {
  chars = (inl (omega arith), (inl (omega arith), (inl (omega arith), tt)));
  fits = omega arith;
}

pw-IsText : IsText 255 pw
unfolding byte_len as_bytes encode_char
pw-IsText = record { chars = (inl (omega arith), (inl (omega arith), tt)); fits = omega arith }

wanted-IsRequest : All IsRequest (map request_of_command wanted)
unfolding request_of_command
wanted-IsRequest = (pw-IsText, (tt, tt))

command_line_runs_example :
    (a : StartupArguments) × (parse_arguments is_ascii_alphanumeric nowhere Variable.not_present
        (text "sandstorm" ∷ text "-c" ∷ text "ann:pw" ∷ words)
      ≡ Result.ok (ArgumentsRequest.run a))
    × (a.requests ≡ wanted)
    × (handle_sandstorm_inner 3
          ((run_client_inner a (answer (manager_login ann pw session.world)) (Request.meow ∷ []))
            []).1
          session
        ≡ some (
          answer (manager_login ann pw session.world),
          ok tt,
          run_commands
              (allowed (manager_login ann pw session.world) (map request_of_command wanted))
              (log_in
                (record { username = ann; password = pw })
                (manager_login ann pw session.world)
                session),
        ))
unfolding flag_of str_eq parse_into_user is_ascii_alphanumeric byte_len as_bytes encode_char
command_line_runs_example =
    command_line_runs is_ascii_alphanumeric nowhere Variable.not_present (text "sandstorm")
      (text "-c") (text "ann:pw") ann pw words wanted (Request.meow ∷ []) 3 session refl refl refl
      wanted-Asks (ann-IsText, pw-IsText) wanted-IsRequest (omega arith)
