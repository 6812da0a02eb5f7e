-- ===== src/Tests/Sessions.antt =====
-- The server at concrete values.
use dust_devil.Base.{
  ℕ, ◌≡◌, ◌≢◌, ◌≤◌, ◌↔◌, refl, inl, true, false, none, some, List, [], ◌∷◌, ◌++◌, All, str_eq,
  if◌then◌else◌, arith,
}
use dust_devil.Io.{Text, ErrorKind, error_new, ok}
use dust_devil.Io.Writer.{◌>>◌}
use dust_devil.Utf8
use dust_devil.Utf8.{byte_len, as_bytes, encode_char, from_utf8}
use dust_devil.Serialize.Addresses.{SocketAddr, v4}
use dust_devil.Serialize.Containers.{Result}
use dust_devil.Serialize.Texts.Laws.{IsText}
use dust_devil.Protocol.Users.{admin, regular, escape_char, into_role_char}
use dust_devil.Protocol.Socks.{domainname, SocksRequest, socks_request}
use dust_devil.Protocol.Requests
use dust_devil.Protocol.Requests.{Request}
use dust_devil.Protocol.Handshake.{SandstormHandshake, write_handshake, write_status}
use dust_devil.Server.Table.{lookup, total}
use dust_devil.Server.UsersFile
use dust_devil.Server.Users.{UserData, UserManager, insert, update, delete, try_login}
use dust_devil.Server.Users.Laws.{IsValid, admins}
use dust_devil.Server.Users.Runs.{
  Change, inserting, updating, deleting, run_changes, run_changes_lem,
}
use dust_devil.Server.Users.Lookup.{
  find, try_login_iff, IsInserted, insert-IsInserted, find-update, find-delete, update_answer,
  delete_answer,
}
use dust_devil.Server.UsersFile.{is_empty, parse_line_into_user, save_user}
use dust_devil.Server.UsersFile.RoundTrip.{unescape}
use dust_devil.Server.UsersFile.SaveLoad.{IsStorable, parse_line_into_user-save_user_iff}
use dust_devil.Server.UsersFile.Bounds.{parse_line_into_user_bounds}
use dust_devil.Server.Context.{manager_login}
use dust_devil.Server.Sandstorm.{Session, handle_sandstorm_inner, handshake_status, log_in}
use dust_devil.Server.Sandstorm.Laws.{write_requests, run_commands, handle_sandstorm_inner_runs}
use dust_devil.Server.Sandstorm.Invariant.{IsSound, run_commands-IsSound}
use dust_devil.Server.Socks.{Attempt, connect_failed}
use dust_devil.Server.Socks.Domain.{
  read_domain_loop, domain_bytes, read_domainname, read_domain_loop_lem,
}
use dust_devil.Server.Socks.Parse.{parse_request, request_bytes}
use dust_devil.Server.Socks.Laws.{parse_request-request_bytes, read_domainname_stuck}

abbrev ana : Text
ana = b'a' ∷ b'n' ∷ b'a' ∷ []

abbrev bo : Text
bo = b'b' ∷ b'o' ∷ []

abbrev secret : UserData
secret = record { password = bo; role = admin }

abbrev one_admin : UserManager
one_admin = record { users = (ana, secret) ∷ []; admin_count = 1 }

one_admin-IsValid : IsValid one_admin
unfolding lookup total
one_admin-IsValid = record { keys = (refl, tt); counted = refl; fits = omega arith }

abbrev session : Session
session = record {
  manager_id = 4;
  world = record {
    state = record {
      users = one_admin;
      no_auth_enabled = true;
      userpass_auth_enabled = true;
      buffer_size = 8192;
      has_metrics = true;
    };
    has_logger = true;
    events = [];
  };
  messages = [];
  notifications = [];
}

ana-IsText : IsText 255 ana
unfolding byte_len as_bytes encode_char
ana-IsText = record {
  chars = (inl (omega arith), (inl (omega arith), (inl (omega arith), tt)));
  fits = omega arith;
}

bo-IsText : IsText 255 bo
unfolding byte_len as_bytes encode_char
bo-IsText = record { chars = (inl (omega arith), (inl (omega arith), tt)); fits = omega arith }

-- A new administrator, who then removes the old one.
abbrev takeover : List Request
takeover = Request.add_user bo bo admin ∷ Request.delete_user ana ∷ Request.set_buffer_size 0 ∷ []

takeover-IsRequest : All Requests.Laws.IsRequest takeover
takeover-IsRequest = ((bo-IsText, bo-IsText), (ana-IsText, (omega arith, tt)))

abbrev intruder : SandstormHandshake
intruder = record { username = bo; password = ana }

handle_sandstorm_inner_runs_example :
    (((write_handshake intruder >> write_requests takeover) []).0 ≡ ok tt)
    × (handle_sandstorm_inner 4 ((write_handshake intruder >> write_requests takeover) []).1 session
        ≡ some (
          (write_status (handshake_status (manager_login bo ana session.world)) []).1,
          ok tt,
          run_commands takeover (log_in intruder (manager_login bo ana session.world) session),
        ))
handle_sandstorm_inner_runs_example =
    handle_sandstorm_inner_runs intruder takeover 4 session (bo-IsText, ana-IsText)
      takeover-IsRequest (omega arith)

run_commands-IsSound_example : IsSound (run_commands takeover session).world.state
run_commands-IsSound_example =
    run_commands-IsSound takeover session (omega arith)
      (record { users_valid = one_admin-IsValid; has_admin = omega arith; buffers = omega arith })

abbrev changes : List Change
changes = inserting bo bo regular ∷ updating bo none (some admin) ∷ deleting ana ∷ deleting bo ∷ []

run_changes_lem_example :
    IsValid (run_changes changes one_admin) × (1 ≤ admins (run_changes changes one_admin))
run_changes_lem_example =
    run_changes_lem changes one_admin (omega arith) one_admin-IsValid (omega arith)

find-update_example :
    ((update ana none (some regular) one_admin).0
      ≡ (update_answer (find ana one_admin) none (some regular) one_admin).0)
    × (find bo (update ana none (some regular) one_admin).1 ≡ (
        if str_eq ana bo
        then (update_answer (find ana one_admin) none (some regular) one_admin).1
        else find bo one_admin))
find-update_example = find-update ana none (some regular) one_admin bo

find-delete_example :
    ((delete ana one_admin).0 ≡ (delete_answer (find ana one_admin) ana one_admin).0)
    × (find ana (delete ana one_admin).1 ≡ (
        if str_eq ana ana
        then (delete_answer (find ana one_admin) ana one_admin).1
        else find ana one_admin))
find-delete_example = find-delete ana one_admin ana

insert-IsInserted_example :
    ((insert bo ana admin one_admin).0 ≡ true)
    × ((insert bo ana admin one_admin).1.admin_count ≡ 2)
    × ((j : Text)
        → find j (insert bo ana admin one_admin).1 ≡ (
            if str_eq bo j
            then some (record { password = ana; role = admin })
            else find j one_admin))
unfolding IsInserted str_eq lookup
insert-IsInserted_example = insert-IsInserted bo ana admin one_admin

try_login_iff_example :
    (try_login ana bo one_admin ≡ some admin)
    ↔ (find ana one_admin ≡ some (record { password = bo; role = admin }))
try_login_iff_example = try_login_iff ana bo admin one_admin

-- A name that needs escapes, and a password that has one.
abbrev odd_name : Text
odd_name = b':' ∷ 0xf1 ∷ []

abbrev odd_user : UserData
odd_user = record { password = escape_char ∷ b'x' ∷ []; role = regular }

odd_user-IsStorable : IsStorable odd_name odd_user
unfolding unescape byte_len as_bytes encode_char
odd_user-IsStorable = record {
  name_chars = (inl (omega arith), (inl (omega arith), tt));
  password_chars = (inl (omega arith), (inl (omega arith), tt));
  name_given = refl;
  password_given = refl;
  name_fits = omega arith;
  password_fits = omega arith;
}

abbrev odd_line : Text
odd_line = b'#' ∷ escape_char ∷ b':' ∷ 0xf1 ∷ b':' ∷ escape_char ∷ b'x' ∷ []

parse_line_into_user-save_user_iff_example :
    (parse_line_into_user odd_line 1 0 ≡ Result.ok (some (odd_name, odd_user)))
    ↔ All (λ c. c ≢ escape_char) odd_user.password
unfolding save_user from_utf8 UsersFile.escape_bytes as_bytes encode_char into_role_char
    Utf8.decode_char Utf8.decode_two
parse_line_into_user-save_user_iff_example =
    parse_line_into_user-save_user_iff odd_name odd_user 1 0 odd_line odd_user-IsStorable refl

abbrev bo_line : Text
bo_line = b'@' ∷ b'b' ∷ b'o' ∷ b':' ∷ b'a' ∷ b'n' ∷ b'a' ∷ []

parse_line_into_user_bounds_example :
    ((is_empty bo ≡ false) × (byte_len bo ≤ 258)) × ((is_empty ana ≡ false) × (byte_len ana ≤ 258))
unfolding parse_line_into_user UsersFile.parse_username UsersFile.parse_after_username
    UsersFile.parse_password UsersFile.finish_user byte_len as_bytes encode_char
parse_line_into_user_bounds_example =
    parse_line_into_user_bounds bo_line 1 0 bo (record { password = ana; role = admin }) refl

abbrev to_host : SocksRequest
to_host = socks_request (domainname bo) 443

-- A socket that has one byte ready, then two, and so on.
abbrev sizes : ℕ → ℕ
sizes n = n

parse_request-request_bytes_example :
    parse_request sizes 255 (request_bytes to_host ++ ana) ≡ some (ok (Result.ok to_host, ana))
parse_request-request_bytes_example =
    parse_request-request_bytes sizes 255 to_host ana (omega arith)
      (omega arith, omega arith, (refl, (refl, tt))) (omega arith)

read_domain_loop_lem_example : read_domain_loop sizes 9 2 [] ana ≡ domain_bytes 2 [] ana
read_domain_loop_lem_example = read_domain_loop_lem sizes 9 2 [] ana (omega arith)

read_domainname_stuck_example : read_domainname sizes 200 (5 ∷ ana) ≡ none
read_domainname_stuck_example =
    read_domainname_stuck sizes 200 5 ana (omega arith) (omega arith) (refl, (refl, (refl, tt)))

abbrev first_host : SocketAddr
first_host = v4 (record { ip = 10 ∷ 0 ∷ 0 ∷ 1 ∷ []; port = 80 })

abbrev try_nothing : SocketAddr → Attempt
try_nothing a = connect_failed (error_new ErrorKind.connection_refused ana)
