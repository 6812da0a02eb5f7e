-- ===== src/Client.antt =====
-- sandstorm/src/sandstorm.rs: the client's side of the protocol. Each kind of requests has a queue of
-- the functions that wait for its responses; a function is known by a number.
pub mod Args
pub mod Requests
pub mod Kinds
pub mod Order
pub mod Session
pub mod Program
use dust_devil.Base.{
  ℕ, zero, suc, ◌+◌, ◌-◌, ◌%◌, ◌^◌, Bool, true, false, ◌||◌, Option, none, some, List, [], ◌∷◌,
  ◌++◌, length, ◌==◌, if◌then◌else◌,
}
use dust_devil.Io.{Bytes, Text, text, Error, ErrorKind, error_new, Outcome, ok, eof, err}
use dust_devil.Serialize.Containers.{Result}
use dust_devil.Protocol.Commands.{SandstormCommandType, command_to_u8, read_command}
use dust_devil.Protocol.Events.{Event}
use dust_devil.Protocol.Metrics.{EventStreamConfigResponse}
use dust_devil.Protocol.Requests.{Request}
use dust_devil.Protocol.Responses.{Response, response_of}

unfoldable pub same_command : SandstormCommandType → SandstormCommandType → Bool
unfolding command_to_u8
same_command c d = command_to_u8 c == command_to_u8 d

abbrev pub command_of_request : Request → SandstormCommandType
command_of_request = elim [
  | Request.shutdown ↦ SandstormCommandType.shutdown
  | Request.event_stream_config b ↦ SandstormCommandType.event_stream_config
  | Request.list_socks5_sockets ↦ SandstormCommandType.list_socks5_sockets
  | Request.add_socks5_socket a ↦ SandstormCommandType.add_socks5_socket
  | Request.remove_socks5_socket a ↦ SandstormCommandType.remove_socks5_socket
  | Request.list_sandstorm_sockets ↦ SandstormCommandType.list_sandstorm_sockets
  | Request.add_sandstorm_socket a ↦ SandstormCommandType.add_sandstorm_socket
  | Request.remove_sandstorm_socket a ↦ SandstormCommandType.remove_sandstorm_socket
  | Request.list_users ↦ SandstormCommandType.list_users
  | Request.add_user u p r ↦ SandstormCommandType.add_user
  | Request.update_user u p r ↦ SandstormCommandType.update_user
  | Request.delete_user u ↦ SandstormCommandType.delete_user
  | Request.list_auth_methods ↦ SandstormCommandType.list_auth_methods
  | Request.toggle_auth_method m b ↦ SandstormCommandType.toggle_auth_method
  | Request.request_current_metrics ↦ SandstormCommandType.request_current_metrics
  | Request.get_buffer_size ↦ SandstormCommandType.get_buffer_size
  | Request.set_buffer_size n ↦ SandstormCommandType.set_buffer_size
  | Request.meow ↦ SandstormCommandType.meow
]

abbrev pub command_of_response : Response → SandstormCommandType
command_of_response = elim [
  | Response.shutdown ↦ SandstormCommandType.shutdown
  | Response.event_stream_config r ↦ SandstormCommandType.event_stream_config
  | Response.event_stream e ↦ SandstormCommandType.event_stream
  | Response.list_socks5_sockets r ↦ SandstormCommandType.list_socks5_sockets
  | Response.add_socks5_socket r ↦ SandstormCommandType.add_socks5_socket
  | Response.remove_socks5_socket r ↦ SandstormCommandType.remove_socks5_socket
  | Response.list_sandstorm_sockets r ↦ SandstormCommandType.list_sandstorm_sockets
  | Response.add_sandstorm_socket r ↦ SandstormCommandType.add_sandstorm_socket
  | Response.remove_sandstorm_socket r ↦ SandstormCommandType.remove_sandstorm_socket
  | Response.list_users r ↦ SandstormCommandType.list_users
  | Response.add_user r ↦ SandstormCommandType.add_user
  | Response.update_user r ↦ SandstormCommandType.update_user
  | Response.delete_user r ↦ SandstormCommandType.delete_user
  | Response.list_auth_methods r ↦ SandstormCommandType.list_auth_methods
  | Response.toggle_auth_method r ↦ SandstormCommandType.toggle_auth_method
  | Response.request_current_metrics r ↦ SandstormCommandType.request_current_metrics
  | Response.get_buffer_size r ↦ SandstormCommandType.get_buffer_size
  | Response.set_buffer_size r ↦ SandstormCommandType.set_buffer_size
  | Response.meow ↦ SandstormCommandType.meow
]

abbrev pub command_name : SandstormCommandType → Text
command_name = elim [
  | SandstormCommandType.shutdown ↦ text "Shutdown"
  | SandstormCommandType.event_stream_config ↦ text "EventStreamConfig"
  | SandstormCommandType.event_stream ↦ text "EventStream"
  | SandstormCommandType.list_socks5_sockets ↦ text "ListSocks5Sockets"
  | SandstormCommandType.add_socks5_socket ↦ text "AddSocks5Socket"
  | SandstormCommandType.remove_socks5_socket ↦ text "RemoveSocks5Socket"
  | SandstormCommandType.list_sandstorm_sockets ↦ text "ListSandstormSockets"
  | SandstormCommandType.add_sandstorm_socket ↦ text "AddSandstormSocket"
  | SandstormCommandType.remove_sandstorm_socket ↦ text "RemoveSandstormSocket"
  | SandstormCommandType.list_users ↦ text "ListUsers"
  | SandstormCommandType.add_user ↦ text "AddUser"
  | SandstormCommandType.update_user ↦ text "UpdateUser"
  | SandstormCommandType.delete_user ↦ text "DeleteUser"
  | SandstormCommandType.list_auth_methods ↦ text "ListAuthMethods"
  | SandstormCommandType.toggle_auth_method ↦ text "ToggleAuthMethod"
  | SandstormCommandType.request_current_metrics ↦ text "RequestCurrentMetrics"
  | SandstormCommandType.get_buffer_size ↦ text "GetBufferSize"
  | SandstormCommandType.set_buffer_size ↦ text "SetBufferSize"
  | SandstormCommandType.meow ↦ text "Meow"
]

abbrev pub unexpected : SandstormCommandType → Error
unexpected c =
    error_new ErrorKind.invalid_data
      (text "Received unexpected " ++ (command_name c ++ text " response"))

-- `ResponseHandlers`, its queues as one function of the command; what `event_stream_sender` holds; the
-- calls of the functions, and the events passed on, in their order; and the requests written.
pub record ResponseHandlers : Type 0 where
  pub remaining : ℕ
  pub was_shutdown : Bool
  pub has_flush_notifier : Bool
  pub queue : SandstormCommandType → List ℕ
  pub event_receiver : Option ℕ
  pub calls : List (ℕ × Response)
  pub passed_on : List (ℕ × Event)
  pub requests : List Request

abbrev pub initial_handlers : ResponseHandlers
initial_handlers = record {
  remaining = 0;
  was_shutdown = false;
  has_flush_notifier = false;
  queue = λ c. [];
  event_receiver = none;
  calls = [];
  passed_on = [];
  requests = [];
}

abbrev pub set_queue : SandstormCommandType → List ℕ → ResponseHandlers → ResponseHandlers
set_queue c q h = record h { queue = λ d. if same_command c d then q else h.queue d }

abbrev is_shutdown : Request → Bool
is_shutdown = elim [ Request.shutdown ↦ true | _ ↦ false ]

-- The functions `shutdown_fn`, `event_stream_config_fn` and so on.
unfoldable pub request_fn : Request → (f : ℕ) → ResponseHandlers → ResponseHandlers
unfolding same_command
request_fn r f h =
    let c = command_of_request r in
    record (set_queue c (h.queue c ++ f ∷ []) h) {
      remaining = (h.remaining + 1) % 2 ^ 64;
      was_shutdown = if is_shutdown r then true else h.was_shutdown;
      requests = h.requests ++ r ∷ [];
    }

abbrev pub flush_and_wait : ResponseHandlers → ResponseHandlers
flush_and_wait h = record h {
  has_flush_notifier = if h.remaining == 0 then h.has_flush_notifier else true;
}

abbrev pub shutdown_and_close : ResponseHandlers → ResponseHandlers
shutdown_and_close h = record h { was_shutdown = true }

-- The end of a round of the reader: who waits for all responses is told.
abbrev pub notify_flush : ResponseHandlers → ResponseHandlers
notify_flush h = record h {
  has_flush_notifier = if h.remaining == 0 then false else h.has_flush_notifier;
}

-- The end of the stream of responses.
unfoldable pub finish : ResponseHandlers → Result (Unit {0}) Error
finish h =
    if h.was_shutdown
    then if (h.remaining == 0) || (h.remaining == length (h.queue SandstormCommandType.shutdown))
      then Result.ok tt
      else Result.err (
          error_new ErrorKind.unexpected_eof
            (text "The server closed the connection before answering all the requests"))
    else Result.err (error_new ErrorKind.connection_reset (text "The server closed unexpectedly"))

abbrev pub outcome_of : Result (Unit {0}) Error → Outcome (Unit {0})
outcome_of (Result.ok u) = ok u
outcome_of (Result.err e) = err e

abbrev pub is_eof : Error → Bool
is_eof e = elim e.kind [ ErrorKind.unexpected_eof ↦ true | _ ↦ false ]

abbrev pub and_notify : Result ResponseHandlers Error → Result ResponseHandlers Error
and_notify (Result.ok h) = Result.ok (notify_flush h)
and_notify (Result.err e) = Result.err e

-- What is not known of the functions: the receiver of events that a function gives for a response to
-- its EventStreamConfig request, and whether a receiver still takes an event.
module _ (receiver_of : ℕ → EventStreamConfigResponse → Option ℕ)
    (takes_event : ℕ → Event → Bool) where
  unfoldable pub next_receiver : Response → (f : ℕ) → Option ℕ → Option ℕ
  next_receiver r f old = elim r [ Response.event_stream_config c ↦ receiver_of f c | _ ↦ old ]

  -- The first function of a queue is taken out and called.
  unfoldable pub call_first : Response → List ℕ → ResponseHandlers → Result ResponseHandlers Error
  unfolding next_receiver same_command
  call_first r [] h = Result.err (unexpected (command_of_response r))
  call_first r (f ∷ q) h = Result.ok (record (set_queue (command_of_response r) q h) {
    remaining = (h.remaining + (2 ^ 64 - 1)) % 2 ^ 64;
    event_receiver = next_receiver r f h.event_receiver;
    calls = h.calls ++ (f, r) ∷ [];
  })

  unfoldable pub pass_on : Event → Option ℕ → ResponseHandlers → ResponseHandlers
  pass_on e none h = h
  pass_on e (some k) h =
      if takes_event k e
      then record h { passed_on = h.passed_on ++ (k, e) ∷ [] }
      else record h { event_receiver = none }

  -- A response that has been read.
  unfoldable pub handle_response : Response → ResponseHandlers → Result ResponseHandlers Error
  unfolding call_first pass_on
  handle_response (Response.event_stream e) h =
      Result.ok (notify_flush (pass_on e h.event_receiver h))
  handle_response r h = and_notify (call_first r (h.queue (command_of_response r)) h)

  -- The reader of responses; `none` where the fuel does not last.
  unfoldable pub reader_task_inner :
      ℕ → Bytes → ResponseHandlers → Option (Outcome (Unit {0}) × ResponseHandlers)
  unfolding handle_response finish
  reader_task_inner zero src h = none
  reader_task_inner (suc fuel) src h = elim (read_command src) [
    | ok (c, rest) ↦ elim (response_of c rest) [
      | ok (r, rest') ↦ elim (handle_response r h) [
        | Result.ok h' ↦ reader_task_inner fuel rest' h'
        | Result.err e ↦ some (err e, h)
      ]
      | eof ↦ some (eof, h)
      | err e ↦ some (err e, h)
    ]
    | eof ↦ some (outcome_of (finish h), h)
    | err e ↦ some (if is_eof e then outcome_of (finish h) else err e, h)
  ]
