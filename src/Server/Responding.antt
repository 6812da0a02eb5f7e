-- ===== src/Server/Responding.antt =====
-- dust-devil/src/sandstorm/response_handler.rs and error_handling.rs: the answers to a manager's
-- requests, in the order in which they are written. A receiver is what will be received from it,
-- `none` where its sender is dropped; when it is, and which branch of `select!` runs, is a schedule.
pub mod Queues
pub mod Kinds
pub mod Notified
pub mod Turns
pub mod Laws
use dust_devil.Base.{
  ℕ, Bool, true, false, ◌&&◌, ◌||◌, not, Option, none, some, List, [], ◌∷◌, ◌++◌, length, ◌==◌,
  if◌then◌else◌,
}
use dust_devil.Io.{Text, text, Error, ErrorKind, error_new}
use dust_devil.Serialize.Addresses.{SocketAddr}
use dust_devil.Serialize.Containers.{Result, ok, err}
use dust_devil.Protocol.Users.{UserRole}
use dust_devil.Protocol.Socks.{AuthMethod}
use dust_devil.Protocol.Events.{Event}
use dust_devil.Protocol.Metrics.{Metrics, EventStreamConfigResponse}
use dust_devil.Protocol.Results.{
  RemoveSocketResponse, AddUserResponse, UpdateUserResponse, DeleteUserResponse,
}
use dust_devil.Protocol.Responses.{Response}

abbrev pub receiver_buffer_size : ℕ
receiver_buffer_size = 4

pub data SocketRequestResult : Type 0 where
  list : List SocketAddr → SocketRequestResult
  add : Result (Unit {0}) Error → SocketRequestResult
  remove : RemoveSocketResponse → SocketRequestResult

-- A receiver of metrics, if the server keeps any, and what is received from it.
pub data MetricsReceiver : Type 0 where
  no_receiver : MetricsReceiver
  receiver : Option Metrics → MetricsReceiver

-- The notifications of sandstorm/messaging.rs, with what their receivers give.
pub data Notification : Type 0 where
  shutdown : Notification
  log_event_config : Bool → MetricsReceiver → Notification
  list_socks5_sockets list_sandstorm_sockets : Option (List SocketAddr) → Notification
  add_socks5_socket add_sandstorm_socket : Option (Result (Unit {0}) Error) → Notification
  remove_socks5_socket remove_sandstorm_socket : Option RemoveSocketResponse → Notification
  list_users : List (Text × UserRole) → Notification
  add_user : AddUserResponse → Notification
  update_user : UpdateUserResponse → Notification
  delete_user : DeleteUserResponse → Notification
  list_auth_methods : List (AuthMethod × Bool) → Notification
  toggle_auth_method : Bool → Notification
  request_current_metrics : MetricsReceiver → Notification
  get_buffer_size : ℕ → Notification
  set_buffer_size : Bool → Notification
  meow : Notification

unfoldable pub handle_socks5_response : SocketRequestResult → Response
handle_socks5_response (list r) = Response.list_socks5_sockets r
handle_socks5_response (add r) = Response.add_socks5_socket r
handle_socks5_response (remove r) = Response.remove_socks5_socket r

unfoldable pub handle_sandstorm_response : SocketRequestResult → Response
handle_sandstorm_response (list r) = Response.list_sandstorm_sockets r
handle_sandstorm_response (add r) = Response.add_sandstorm_socket r
handle_sandstorm_response (remove r) = Response.remove_sandstorm_socket r

-- `SocketRequestReceiver`, by the variant that its result will have.
abbrev pub SocketRequestReceiver : Type 0
SocketRequestReceiver = Option SocketRequestResult

abbrev pub receive : {A : Type 0} → (A → SocketRequestResult) → Option A → SocketRequestReceiver
receive f none = none
receive f (some a) = some (f a)

-- The response that a receiver leads to, `none` where its sender is dropped.
abbrev pub socks5_answer : SocketRequestReceiver → Option Response
socks5_answer none = none
socks5_answer (some r) = some (handle_socks5_response r)

abbrev pub sandstorm_answer : SocketRequestReceiver → Option Response
sandstorm_answer none = none
sandstorm_answer (some r) = some (handle_sandstorm_response r)

abbrev pub metrics_answer : MetricsReceiver → Option Response
metrics_answer no_receiver = some (Response.request_current_metrics none)
metrics_answer (receiver none) = none
metrics_answer (receiver (some m)) = some (Response.request_current_metrics (some m))

-- `map_err_to_io` of a receiver's error.
abbrev pub no_value : Error
no_value = error_new ErrorKind.other (text "Oneshot receiver didn't receive any value")

-- `ResponseHandlerState`, the responses written, whether the writer has something to flush, and whether
-- the notifications have ended.
pub record HandlerState : Type 0 where
  pub socks_receivers : List SocketRequestReceiver
  pub sandstorm_receivers : List SocketRequestReceiver
  pub metrics_receivers : List MetricsReceiver
  pub streaming : Bool
  pub written : List Response
  pub unflushed : Bool
  pub closed : Bool

-- The queue of a kind of receivers: the first is awaited and taken out, and its response written.
module _ {E : Type 0} (answer : E → Option Response) where
  unfoldable pub take_first : E → List E → List Response → Result (List E × List Response) Error
  take_first e q out = elim (answer e) [ none ↦ err no_value | some r ↦ ok (q, out ++ r ∷ []) ]

  abbrev pub push_back :
      E → Result (List E × List Response) Error → Result (List E × List Response) Error
  push_back e (ok (q, out)) = ok (q ++ e ∷ [], out)
  push_back e (err x) = err x

  -- A new receiver. A full queue gives room first.
  unfoldable pub enqueue : E → List E → List Response → Result (List E × List Response) Error
  unfolding take_first
  enqueue e [] out = ok (e ∷ [], out)
  enqueue e (d ∷ q) out =
      if length (d ∷ q) == receiver_buffer_size
      then push_back e (take_first d q out)
      else ok ((d ∷ q) ++ e ∷ [], out)

abbrev pub write : Response → HandlerState → HandlerState
write r s = record s { written = s.written ++ r ∷ []; unflushed = true }

abbrev pub grown : List Response → List Response → Bool → Bool
grown old out unflushed = unflushed || not (length out == length old)

abbrev pub with_socks :
    HandlerState
    → Result (List SocketRequestReceiver × List Response) Error
    → Result HandlerState Error
with_socks s (ok (q, out)) =
    ok
      (record s { socks_receivers = q; written = out; unflushed = grown s.written out s.unflushed })
with_socks s (err e) = err e

abbrev pub with_sandstorm :
    HandlerState
    → Result (List SocketRequestReceiver × List Response) Error
    → Result HandlerState Error
with_sandstorm s (ok (q, out)) = ok (record s {
  sandstorm_receivers = q;
  written = out;
  unflushed = grown s.written out s.unflushed;
})
with_sandstorm s (err e) = err e

abbrev pub with_metrics :
    HandlerState → Result (List MetricsReceiver × List Response) Error → Result HandlerState Error
with_metrics s (ok (q, out)) =
    ok (record s {
      metrics_receivers = q;
      written = out;
      unflushed = grown s.written out s.unflushed;
    })
with_metrics s (err e) = err e

-- `LogEventConfig`: the stream of events is switched off or on, with the metrics of that moment.
unfoldable pub config_events :
    Bool → (streaming : Bool) → MetricsReceiver → HandlerState → Result HandlerState Error
config_events false streaming r s = ok (
    write (Response.event_stream_config EventStreamConfigResponse.disabled)
      (record s { streaming = false }))
config_events true true r s =
    ok (write (Response.event_stream_config EventStreamConfigResponse.was_already_enabled) s)
config_events true false no_receiver s =
    ok (write (Response.event_stream_config EventStreamConfigResponse.disabled) s)
config_events true false (receiver none) s = err no_value
config_events true false (receiver (some m)) s = ok (
    write (Response.event_stream_config (EventStreamConfigResponse.enabled m))
      (record s { streaming = true }))

abbrev pub enqueue_socks : SocketRequestReceiver → HandlerState → Result HandlerState Error
enqueue_socks e s = with_socks s (enqueue socks5_answer e s.socks_receivers s.written)

abbrev pub enqueue_sandstorm : SocketRequestReceiver → HandlerState → Result HandlerState Error
enqueue_sandstorm e s =
    with_sandstorm s (enqueue sandstorm_answer e s.sandstorm_receivers s.written)

unfoldable pub handle_notification : Notification → HandlerState → Result HandlerState Error
unfolding enqueue config_events
handle_notification shutdown s = ok (write Response.shutdown s)
handle_notification (log_event_config enabled r) s = config_events enabled s.streaming r s
handle_notification (list_socks5_sockets r) s = enqueue_socks (receive list r) s
handle_notification (add_socks5_socket r) s = enqueue_socks (receive add r) s
handle_notification (remove_socks5_socket r) s = enqueue_socks (receive remove r) s
handle_notification (list_sandstorm_sockets r) s = enqueue_sandstorm (receive list r) s
handle_notification (add_sandstorm_socket r) s = enqueue_sandstorm (receive add r) s
handle_notification (remove_sandstorm_socket r) s = enqueue_sandstorm (receive remove r) s
handle_notification (list_users r) s = ok (write (Response.list_users r) s)
handle_notification (add_user r) s = ok (write (Response.add_user r) s)
handle_notification (update_user r) s = ok (write (Response.update_user r) s)
handle_notification (delete_user r) s = ok (write (Response.delete_user r) s)
handle_notification (list_auth_methods r) s = ok (write (Response.list_auth_methods r) s)
handle_notification (toggle_auth_method r) s = ok (write (Response.toggle_auth_method r) s)
handle_notification (request_current_metrics r) s =
    with_metrics s (enqueue metrics_answer r s.metrics_receivers s.written)
handle_notification (get_buffer_size n) s = ok (write (Response.get_buffer_size n) s)
handle_notification (set_buffer_size r) s =
    ok (record (write (Response.set_buffer_size r) s) { unflushed = false })
handle_notification meow s = ok (write Response.meow s)

-- The branch of `select!` that runs.
pub data Branch : Type 0 where
  notified : Notification → Branch
  notifier_closed socks_answered sandstorm_answered metrics_answered : Branch
  event : Event → Branch
  events_closed : Branch
  events_lagged : (message : Text) → Branch
  flushed : Branch

-- How a branch ends: the loop goes on, it breaks off, or the function returns an error.
pub data Turn : Type 0 where
  goes_on breaks : HandlerState → Turn
  fails : Error → Turn

abbrev pub turn : Result HandlerState Error → Turn
turn (ok s) = goes_on s
turn (err e) = fails e

abbrev pub first_of :
    {E : Type 0}
    → (E → Option Response)
    → List E
    → List Response
    → (Result (List E × List Response) Error → Result HandlerState Error)
    → HandlerState
    → Turn
first_of answer [] out k s = goes_on s
first_of answer (e ∷ q) out k s = turn (k (take_first answer e q out))

-- A branch that is not ready changes nothing.
unfoldable pub select : Branch → HandlerState → Turn
unfolding take_first handle_notification
select (notified n) s = if s.closed then goes_on s else turn (handle_notification n s)
select notifier_closed s = goes_on (record s { closed = true })
select socks_answered s = first_of socks5_answer s.socks_receivers s.written (with_socks s) s
select sandstorm_answered s =
    first_of sandstorm_answer s.sandstorm_receivers s.written (with_sandstorm s) s
select metrics_answered s = first_of metrics_answer s.metrics_receivers s.written (with_metrics s) s
select (event e) s = if s.streaming then goes_on (write (Response.event_stream e) s) else goes_on s
select events_closed s = if s.streaming then breaks s else goes_on s
select (events_lagged m) s = if s.streaming then fails (error_new ErrorKind.other m) else goes_on s
select flushed s = goes_on (record s { unflushed = false })

abbrev pub is_nil : {A : Type 0} → List A → Bool
is_nil [] = true
is_nil (x ∷ xs) = false

-- The test of the loop.
abbrev pub goes : HandlerState → Bool
goes s =
    not s.closed
    || s.unflushed
    || not (is_nil s.socks_receivers)
    || not (is_nil s.sandstorm_receivers)
    || not (is_nil s.metrics_receivers)

-- How the handler stands at the end of a schedule.
pub data Handled : Type 0 where
  still returned : HandlerState → Handled
  returned_error : Error → Handled

unfoldable pub handle_responses : List Branch → HandlerState → Handled
unfolding select
handle_responses [] s = if goes s then still s else returned s
handle_responses (b ∷ bs) s = elim (goes s) [
  | false ↦ returned s
  | true ↦ elim (select b s) [
    | goes_on s' ↦ handle_responses bs s'
    | breaks s' ↦ returned s'
    | fails e ↦ returned_error e
  ]
]
