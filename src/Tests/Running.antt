-- ===== src/Tests/Running.antt =====
-- The users file, the relay, the answers to managers, the logger and the main loop at concrete values.
use dust_devil.Base.{
  ℕ, ◌+◌, ◌<◌, ◌≡◌, refl, Bool, true, false, none, some, Option, List, [], ◌∷◌, ◌++◌, length, map,
  str_eq, arith,
}
use dust_devil.Io.{Bytes, Text}
use dust_devil.Utf8.{byte_len, as_bytes, encode_char}
use dust_devil.Serialize.Addresses.{SocketAddr, v4}
use dust_devil.Serialize.Containers.{Result, ok}
use dust_devil.Protocol.Users.{UsersLoadingError, admin, regular}
use dust_devil.Protocol.Metrics.{EventStreamConfigResponse}
use dust_devil.Protocol.Responses.{Response}
use dust_devil.Protocol.Events.{
  new_client_connection_accepted, client_connection_finished, client_bytes_sent,
}
use dust_devil.Server.Table.{lookup, total}
use dust_devil.Server.Users.{UserManager, count}
use dust_devil.Server.Users.Laws.{IsValid}
use dust_devil.Server.UsersFile
use dust_devil.Server.UsersFile.RoundTrip.{unescape}
use dust_devil.Server.Lines.{Called, done, process_lines_utf8}
use dust_devil.Server.Lines.Split.{split_from}
use dust_devil.Server.Lines.Each.{each_line}
use dust_devil.Server.Lines.Laws.{process_lines_utf8-eq-each_line}
use dust_devil.Server.Loading.{from, save_to}
use dust_devil.Server.Loading
use dust_devil.Server.Loading.Laws.{from-IsValid}
use dust_devil.Server.Loading.Lines.{Keeps}
use dust_devil.Server.Loading.RoundTrip.{from-save_to}
use dust_devil.Server.Relay.{
  Pipe, ReadAnswer, WriteAnswer, Answer, ClientContext, Polled, TransferState, copy_bidirectional,
}
use dust_devil.Server.Relay.Laws.{IsFaithful, copy_bidirectional-IsFaithful}
use dust_devil.Server.Relay.Delivery.{takes, flowing, copy_bidirectional_delivers}
use dust_devil.Server.Responding
use dust_devil.Server.Responding.{
  Notification, Branch, HandlerState, MetricsReceiver, handle_responses, returned,
}
use dust_devil.Server.Responding.Queues.{at_once, only}
use dust_devil.Server.Responding.Turns.{asked}
use dust_devil.Server.Responding.Laws.{starting, handle_responses_answers}
use dust_devil.Server.Logger.{Received, MetricsRequest, metrics_task, initial}
use dust_devil.Server.Logger.Laws.{sum_of, replies, metrics_task-eq-replies}
use dust_devil.Server.Sandstorm.{MessageType}
use dust_devil.Server.Loop.{Server, Wake, main_loop}
use dust_devil.Server.Loop.Numbers.{IsNumbered, client_ids, manager_ids, main_loop-IsNumbered}
use dust_devil.Server.Loop.Replies.{kind_of_reply, kind_of_message, handled, main_loop_replies}

abbrev eve : Text
eve = b'e' ∷ b':' ∷ b'e' ∷ []

abbrev ed : Text
ed = b'e' ∷ b'd' ∷ []

abbrev two_users : UserManager
two_users = record {
  users =
      (eve, record { password = ed; role = regular })
      ∷ (ed, record { password = eve; role = admin })
      ∷ [];
  admin_count = 1;
}

two_users-IsValid : IsValid two_users
unfolding lookup total str_eq
two_users-IsValid = record { keys = (refl, (refl, tt)); counted = refl; fits = omega arith }

-- Texts of a few letters are kept by the file.
eve-Keeps : Keeps eve (record { password = ed; role = regular })
unfolding unescape byte_len as_bytes encode_char
eve-Keeps = record {
  storable = record {
    name_chars = omega arith;
    password_chars = omega arith;
    name_given = refl;
    password_given = refl;
    name_fits = omega arith;
    password_fits = omega arith;
  };
  name_line = omega arith;
  password_line = omega arith;
  plain = omega arith;
}

ed-Keeps : Keeps ed (record { password = eve; role = admin })
unfolding unescape byte_len as_bytes encode_char
ed-Keeps = record {
  storable = record {
    name_chars = omega arith;
    password_chars = omega arith;
    name_given = refl;
    password_given = refl;
    name_fits = omega arith;
    password_fits = omega arith;
  };
  name_line = omega arith;
  password_line = omega arith;
  plain = omega arith;
}

saved_length : length (save_to two_users).0 < 30
unfolding save_to UsersFile.save_user UsersFile.escape_bytes as_bytes encode_char Loading.user_le
saved_length = omega arith

from-save_to_example :
    (m : UserManager) × (from (λ n. n) none 30 (save_to two_users).0 ≡ some (some (ok m)))
    × ((name : Text) → lookup name m.users ≡ lookup name two_users.users)
    × (m.admin_count ≡ two_users.admin_count)
unfolding count
from-save_to_example =
    from-save_to two_users (λ n. n) 30 two_users-IsValid (eve-Keeps, (ed-Keeps, tt)) (omega arith)
      saved_length

-- A comment, a user, an empty line and a user without a line break behind it.
abbrev some_file : Bytes
some_file = b'!' ∷ 10 ∷ b'@' ∷ b'e' ∷ b':' ∷ b'd' ∷ 10 ∷ 10 ∷ b'#' ∷ b'd' ∷ b':' ∷ b'e' ∷ []

from-IsValid_example :
    (r : Option (Result UserManager UsersLoadingError)) × (from (λ n. 2) none 13 some_file ≡ some r)
    × ((m : UserManager) → r ≡ some (ok m) → IsValid m)
from-IsValid_example = from-IsValid (λ n. 2) none 13 some_file (omega arith) (omega arith)

-- A function on lines that counts them.
abbrev counter : Text → ℕ → ℕ → Called ℕ Bool
counter line n k = done (k + 1)

process_lines_utf8-eq-each_line_example :
    process_lines_utf8 counter (λ n. 2) none 13 0 some_file
    ≡ some (each_line counter none 1 0 (split_from [] some_file).0 (split_from [] some_file).1)
process_lines_utf8-eq-each_line_example =
    process_lines_utf8-eq-each_line counter (λ n. 2) none 13 0 some_file (omega arith)

abbrev quiet : ClientContext
quiet = record { client_id = 7; bytes_sent = 0; bytes_received = 0; has_logger = true; events = [] }

-- Two pieces, the first of which the other side takes in two turns, with a wait between.
abbrev uphill : Pipe
uphill = record {
  state = TransferState.running;
  unread = [];
  reads =
      ReadAnswer.got (1 ∷ 2 ∷ 3 ∷ [])
      ∷ ReadAnswer.waiting
      ∷ ReadAnswer.got (4 ∷ [])
      ∷ ReadAnswer.got []
      ∷ [];
  writes = WriteAnswer.took 2 ∷ WriteAnswer.waiting ∷ WriteAnswer.took 1 ∷ WriteAnswer.took 5 ∷ [];
  flushes = Answer.done ∷ [];
  shutdowns = Answer.waiting ∷ Answer.done ∷ [];
  received = [];
  written = [];
}

abbrev downhill : Pipe
downhill = record uphill { reads = ReadAnswer.got (9 ∷ []) ∷ [] }

copy_bidirectional-IsFaithful_example :
    IsFaithful true
      (copy_bidirectional 4 uphill downhill quiet).1
      (copy_bidirectional 4 uphill downhill quiet).3
    × IsFaithful false
        (copy_bidirectional 4 uphill downhill quiet).2
        (copy_bidirectional 4 uphill downhill quiet).3
copy_bidirectional-IsFaithful_example =
    copy_bidirectional-IsFaithful 4 uphill downhill quiet (record { same = refl; count = refl })
      (record { same = refl; count = refl })

copy_bidirectional_delivers_example :
    let r =
      copy_bidirectional 1
        (flowing [] ((1, 2 ∷ 3 ∷ []) ∷ (4, []) ∷ []) (takes (1 ∷ 0 ∷ 5 ∷ 0 ∷ [])) [] [] [] [])
        (flowing [] ((9, []) ∷ []) (takes (0 ∷ [])) [] [] [] [])
        quiet in
    (r.0 ≡ Polled.ready) × (r.1.written ≡ 1 ∷ 2 ∷ 3 ∷ 4 ∷ []) × (r.2.written ≡ 9 ∷ [])
copy_bidirectional_delivers_example =
    copy_bidirectional_delivers 0 ((1, 2 ∷ 3 ∷ []) ∷ (4, []) ∷ []) ((9, []) ∷ [])
      (1 ∷ 0 ∷ 5 ∷ 0 ∷ []) (0 ∷ []) [] [] [] [] quiet (omega arith) (omega arith)

abbrev local_address : SocketAddr
local_address = v4 (record { ip = 127 ∷ 0 ∷ 0 ∷ 1 ∷ []; port = 1080 })

-- Two requests about sockets with direct answers between them, the first of which overtakes a socket's.
abbrev schedule : List Branch
schedule =
    Branch.notified (Notification.list_socks5_sockets (some (local_address ∷ [])))
    ∷ Branch.notified Notification.meow
    ∷ Branch.socks_answered
    ∷ Branch.notified (Notification.log_event_config true MetricsReceiver.no_receiver)
    ∷ Branch.notified (Notification.add_socks5_socket (some (ok tt)))
    ∷ Branch.notifier_closed
    ∷ Branch.socks_answered
    ∷ Branch.flushed
    ∷ []

abbrev answered : HandlerState
answered = record starting {
  written =
      Response.meow
      ∷ Response.list_socks5_sockets (local_address ∷ [])
      ∷ Response.event_stream_config EventStreamConfigResponse.disabled
      ∷ Response.add_socks5_socket (ok tt)
      ∷ [];
  closed = true;
}

handle_responses_answers_example :
    only at_once answered.written
    ≡ Response.meow ∷ Response.event_stream_config EventStreamConfigResponse.disabled ∷ []
unfolding handle_responses Responding.handle_socks5_response asked only
handle_responses_answers_example = handle_responses_answers schedule answered at_once refl refl

abbrev received : List Received
received =
    Received.event (new_client_connection_accepted 1 local_address)
    ∷ Received.event (client_bytes_sent 1 20)
    ∷ Received.request MetricsRequest.metrics
    ∷ Received.event (client_connection_finished 1 20 0 (ok tt))
    ∷ Received.request MetricsRequest.metrics_and_subscribe
    ∷ []

metrics_task-eq-replies_example : metrics_task received initial ≡ replies [] received
unfolding sum_of
metrics_task-eq-replies_example = metrics_task-eq-replies received (omega arith)

abbrev idle_server : Server
idle_server = record {
  socks_listeners = some local_address ∷ [];
  sandstorm_listeners = [];
  client_id_counter = 1;
  manager_id_counter = 1;
  has_logger = true;
  events = [];
  tasks = [];
  replies = [];
}

abbrev wakes : List Wake
wakes =
    Wake.socks_accepted (ok local_address)
    ∷ Wake.message (MessageType.remove_socks5_socket local_address) (ok none)
    ∷ Wake.socks_accepted (ok local_address)
    ∷ Wake.message MessageType.shutdown_request (ok none)
    ∷ []

idle_server-IsNumbered : IsNumbered idle_server
unfolding client_ids manager_ids
idle_server-IsNumbered = record {
  clients = 0;
  managers = 0;
  client_tasks = refl;
  manager_tasks = refl;
  next_client = refl;
  next_manager = refl;
}

main_loop-IsNumbered_example : IsNumbered (main_loop wakes idle_server).0
unfolding idle_server-IsNumbered
main_loop-IsNumbered_example =
    main_loop-IsNumbered wakes idle_server idle_server-IsNumbered (omega arith)

main_loop_replies_example :
    map kind_of_reply (main_loop wakes idle_server).0.replies
    ≡ map kind_of_reply idle_server.replies ++ map kind_of_message (handled wakes)
main_loop_replies_example = main_loop_replies wakes idle_server
