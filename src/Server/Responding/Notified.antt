-- ===== src/Server/Responding/Notified.antt =====
-- What each notification adds to the answers of dust-devil/src/sandstorm/response_handler.rs.
use dust_devil.Base.{
  ◌≡◌, refl, sym, ap, ◌∙◌, Bool, true, false, Option, none, some, List, [], ◌∷◌, ◌++◌, append-nil,
}
use dust_devil.Serialize.Containers.{ok}
use dust_devil.Protocol.Metrics.{EventStreamConfigResponse}
use dust_devil.Protocol.Events.{Event}
use dust_devil.Protocol.Responses.{Response}
use dust_devil.Server.Responding.{
  list, add, remove, MetricsReceiver, no_receiver, receiver, SocketRequestReceiver,
  handle_socks5_response, handle_sandstorm_response, socks5_answer, sandstorm_answer,
  metrics_answer, enqueue, HandlerState, Notification, write, with_socks, with_sandstorm,
  with_metrics, config_events, handle_notification,
}
use dust_devil.Server.Responding.Queues.{
  Kind, for_socks, for_sandstorm, for_metrics, at_once, of_kind, only, only-append, only_none,
  if_some, promised, enqueue-Serves,
}
use dust_devil.Server.Responding.Kinds.{
  IsOf, socks5-IsOf, sandstorm-IsOf, metrics-IsOf, pending, seen, unchanged, Adds, with_socks-Adds,
  with_sandstorm-Adds, with_metrics-Adds,
}

-- The response to what is received, if anything is.
abbrev answered_by : {A : Type 0} → (A → Response) → Option A → List Response
answered_by f none = []
answered_by f (some a) = f a ∷ []

-- What switching the stream of events is answered, by whether events are streamed already: switched off
-- it is disabled; switched on it was enabled before, or it is with the metrics, or it stays disabled
-- where the server keeps none.
unfoldable pub config_reply : (streaming enabled : Bool) → MetricsReceiver → List Response
config_reply streaming false r =
    Response.event_stream_config EventStreamConfigResponse.disabled ∷ []
config_reply true true r =
    Response.event_stream_config EventStreamConfigResponse.was_already_enabled ∷ []
config_reply false true no_receiver =
    Response.event_stream_config EventStreamConfigResponse.disabled ∷ []
config_reply false true (receiver none) = []
config_reply false true (receiver (some m)) =
    Response.event_stream_config (EventStreamConfigResponse.enabled m) ∷ []

unfoldable pub config_streams : (streaming enabled : Bool) → MetricsReceiver → Bool
config_streams streaming false r = false
config_streams true true r = true
config_streams false true no_receiver = false
config_streams false true (receiver none) = false
config_streams false true (receiver (some m)) = true

-- What a notification is answered, by whether events are streamed.
unfoldable pub replies : (streaming : Bool) → Notification → List Response
unfolding config_reply
replies streaming Notification.shutdown = Response.shutdown ∷ []
replies streaming (Notification.log_event_config b r) = config_reply streaming b r
replies streaming (Notification.list_socks5_sockets r) = answered_by Response.list_socks5_sockets r
replies streaming (Notification.add_socks5_socket r) = answered_by Response.add_socks5_socket r
replies streaming (Notification.remove_socks5_socket r) =
    answered_by Response.remove_socks5_socket r
replies streaming (Notification.list_sandstorm_sockets r) =
    answered_by Response.list_sandstorm_sockets r
replies streaming (Notification.add_sandstorm_socket r) =
    answered_by Response.add_sandstorm_socket r
replies streaming (Notification.remove_sandstorm_socket r) =
    answered_by Response.remove_sandstorm_socket r
replies streaming (Notification.list_users r) = Response.list_users r ∷ []
replies streaming (Notification.add_user r) = Response.add_user r ∷ []
replies streaming (Notification.update_user r) = Response.update_user r ∷ []
replies streaming (Notification.delete_user r) = Response.delete_user r ∷ []
replies streaming (Notification.list_auth_methods r) = Response.list_auth_methods r ∷ []
replies streaming (Notification.toggle_auth_method r) = Response.toggle_auth_method r ∷ []
replies streaming (Notification.request_current_metrics no_receiver) =
    Response.request_current_metrics none ∷ []
replies streaming (Notification.request_current_metrics (receiver none)) = []
replies streaming (Notification.request_current_metrics (receiver (some m))) =
    Response.request_current_metrics (some m) ∷ []
replies streaming (Notification.get_buffer_size r) = Response.get_buffer_size r ∷ []
replies streaming (Notification.set_buffer_size r) = Response.set_buffer_size r ∷ []
replies streaming Notification.meow = Response.meow ∷ []

-- Whether events are streamed after a notification.
unfoldable pub streams_after : (streaming : Bool) → Notification → Bool
unfolding config_streams
streams_after streaming (Notification.log_event_config b r) = config_streams streaming b r
streams_after streaming n = streaming

-- A response that no queue is for.
abbrev Unqueued : Response → Type 0
Unqueued r =
    (of_kind for_socks r ≡ false)
    × (of_kind for_sandstorm r ≡ false)
    × (of_kind for_metrics r ≡ false)

seen-write :
    (k : Kind) (s : HandlerState) (r : Response)
    → Unqueued r
    → only k (s.written ++ r ∷ []) ++ pending k s ≡ seen k s ++ only k (r ∷ [])
unfolding seen pending
seen-write at_once s r u =
    append-nil _
    ∙ only-append at_once s.written (r ∷ [])
    ∙ ap (λ t. t ++ only at_once (r ∷ [])) (sym (append-nil (only at_once s.written)))
seen-write for_socks s r u =
    let none_of = only_none for_socks (r ∷ []) (u.0, tt) in
    ap (λ t. t ++ pending for_socks s)
      (only-append for_socks s.written (r ∷ [])
        ∙ ap (λ t. only for_socks s.written ++ t) none_of
        ∙ append-nil _)
    ∙ unchanged for_socks s _ none_of
seen-write for_sandstorm s r u =
    let none_of = only_none for_sandstorm (r ∷ []) (u.1, tt) in
    ap (λ t. t ++ pending for_sandstorm s)
      (only-append for_sandstorm s.written (r ∷ [])
        ∙ ap (λ t. only for_sandstorm s.written ++ t) none_of
        ∙ append-nil _)
    ∙ unchanged for_sandstorm s _ none_of
seen-write for_metrics s r u =
    let none_of = only_none for_metrics (r ∷ []) (u.2, tt) in
    ap (λ t. t ++ pending for_metrics s)
      (only-append for_metrics s.written (r ∷ [])
        ∙ ap (λ t. only for_metrics s.written ++ t) none_of
        ∙ append-nil _)
    ∙ unchanged for_metrics s _ none_of

-- What is seen depends on the responses and the queues alone.
pub seen-same :
    (k : Kind) (s t : HandlerState)
    → s.written ≡ t.written
    → s.socks_receivers ≡ t.socks_receivers
    → s.sandstorm_receivers ≡ t.sandstorm_receivers
    → s.metrics_receivers ≡ t.metrics_receivers
    → seen k s ≡ seen k t
unfolding seen pending
seen-same for_socks s t w a b c = λ i. only for_socks (w i) ++ promised socks5_answer (a i)
seen-same for_sandstorm s t w a b c =
    λ i. only for_sandstorm (w i) ++ promised sandstorm_answer (b i)
seen-same for_metrics s t w a b c = λ i. only for_metrics (w i) ++ promised metrics_answer (c i)
seen-same at_once s t w a b c = λ i. only at_once (w i) ++ []

write-Adds :
    (k : Kind) (s : HandlerState) (r : Response)
    → Unqueued r
    → Adds k s (r ∷ []) s.streaming (ok (write r s))
unfolding seen pending
write-Adds for_socks s r u = (seen-write for_socks s r u, refl, refl)
write-Adds for_sandstorm s r u = (seen-write for_sandstorm s r u, refl, refl)
write-Adds for_metrics s r u = (seen-write for_metrics s r u, refl, refl)
write-Adds at_once s r u = (seen-write at_once s r u, refl, refl)

-- A response of none of the kinds.
pub write-Adds_event :
    (k : Kind) (s : HandlerState) (r : Response)
    → ((j : Kind) → of_kind j r ≡ false)
    → Adds k s [] s.streaming (ok (write r s))
unfolding only
write-Adds_event k s r h =
    let a = write-Adds k s r (h for_socks, h for_sandstorm, h for_metrics) in
    (a.0 ∙ ap (λ t. seen k s ++ t) (only_none k (r ∷ []) (h k, tt)), a.1, a.2)

pub event_kind : (e : Event) (j : Kind) → of_kind j (Response.event_stream e) ≡ false
unfolding of_kind
event_kind e for_socks = refl
event_kind e for_sandstorm = refl
event_kind e for_metrics = refl
event_kind e at_once = refl

-- The stream is switched, and that is answered.
switch-Adds :
    (k : Kind) (b : Bool) (r : EventStreamConfigResponse) (s : HandlerState)
    → Adds k s
        (Response.event_stream_config r ∷ [])
        b
        (ok (write (Response.event_stream_config r) (record s { streaming = b })))
unfolding of_kind
switch-Adds k b r s =
    let t : HandlerState = record s { streaming = b } in
    let a = write-Adds k t (Response.event_stream_config r) (refl, refl, refl) in
    (
      a.0
          ∙ ap (λ x. x ++ only k (Response.event_stream_config r ∷ []))
              (seen-same k t s refl refl refl refl),
      refl,
      refl,
    )

-- The stream stays as it is, and that is answered.
same-Adds :
    (k : Kind) (b : Bool) (r : EventStreamConfigResponse) (s : HandlerState)
    → s.streaming ≡ b
    → Adds k s
        (Response.event_stream_config r ∷ [])
        b
        (ok (write (Response.event_stream_config r) s))
unfolding of_kind
same-Adds k b r s e =
    let a = write-Adds k s (Response.event_stream_config r) (refl, refl, refl) in (a.0, a.1, e)

config_events-Adds :
    (k : Kind) (b streaming : Bool) (r : MetricsReceiver) (s : HandlerState)
    → s.streaming ≡ streaming
    → Adds k s
        (config_reply streaming b r)
        (config_streams streaming b r)
        (config_events b streaming r s)
unfolding config_events config_reply config_streams
config_events-Adds k false streaming r s e =
    switch-Adds k false EventStreamConfigResponse.disabled s
config_events-Adds k true true r s e =
    same-Adds k true EventStreamConfigResponse.was_already_enabled s e
config_events-Adds k true false no_receiver s e =
    same-Adds k false EventStreamConfigResponse.disabled s e
config_events-Adds k true false (receiver none) s e = tt
config_events-Adds k true false (receiver (some m)) s e =
    switch-Adds k true (EventStreamConfigResponse.enabled m) s

socks-Adds :
    (k : Kind) (s : HandlerState) (e : SocketRequestReceiver)
    → Adds k s
        (if_some (socks5_answer e))
        s.streaming
        (with_socks s (enqueue socks5_answer e s.socks_receivers s.written))
socks-Adds k s e =
    with_socks-Adds k s (if_some (socks5_answer e))
      (enqueue socks5_answer e s.socks_receivers s.written) (socks5-IsOf e)
      (enqueue-Serves socks5_answer (IsOf for_socks) socks5-IsOf e s.socks_receivers s.written)

sandstorm-Adds :
    (k : Kind) (s : HandlerState) (e : SocketRequestReceiver)
    → Adds k s
        (if_some (sandstorm_answer e))
        s.streaming
        (with_sandstorm s (enqueue sandstorm_answer e s.sandstorm_receivers s.written))
sandstorm-Adds k s e =
    with_sandstorm-Adds k s (if_some (sandstorm_answer e))
      (enqueue sandstorm_answer e s.sandstorm_receivers s.written) (sandstorm-IsOf e)
      (enqueue-Serves sandstorm_answer (IsOf for_sandstorm) sandstorm-IsOf e s.sandstorm_receivers
        s.written)

metrics-Adds :
    (k : Kind) (s : HandlerState) (e : MetricsReceiver)
    → Adds k s
        (if_some (metrics_answer e))
        s.streaming
        (with_metrics s (enqueue metrics_answer e s.metrics_receivers s.written))
metrics-Adds k s e =
    with_metrics-Adds k s (if_some (metrics_answer e))
      (enqueue metrics_answer e s.metrics_receivers s.written) (metrics-IsOf e)
      (enqueue-Serves metrics_answer (IsOf for_metrics) metrics-IsOf e s.metrics_receivers
        s.written)

pub handle_notification-Adds :
    (k : Kind) (n : Notification) (s : HandlerState)
    → Adds k s (replies s.streaming n) (streams_after s.streaming n) (handle_notification n s)
unfolding replies streams_after handle_notification of_kind handle_socks5_response
    handle_sandstorm_response
handle_notification-Adds k Notification.shutdown s = write-Adds k s _ (refl, refl, refl)
handle_notification-Adds k (Notification.log_event_config b r) s =
    config_events-Adds k b s.streaming r s refl
handle_notification-Adds k (Notification.list_socks5_sockets none) s = socks-Adds k s none
handle_notification-Adds k (Notification.list_socks5_sockets (some r)) s =
    socks-Adds k s (some (list r))
handle_notification-Adds k (Notification.add_socks5_socket none) s = socks-Adds k s none
handle_notification-Adds k (Notification.add_socks5_socket (some r)) s =
    socks-Adds k s (some (add r))
handle_notification-Adds k (Notification.remove_socks5_socket none) s = socks-Adds k s none
handle_notification-Adds k (Notification.remove_socks5_socket (some r)) s =
    socks-Adds k s (some (remove r))
handle_notification-Adds k (Notification.list_sandstorm_sockets none) s = sandstorm-Adds k s none
handle_notification-Adds k (Notification.list_sandstorm_sockets (some r)) s =
    sandstorm-Adds k s (some (list r))
handle_notification-Adds k (Notification.add_sandstorm_socket none) s = sandstorm-Adds k s none
handle_notification-Adds k (Notification.add_sandstorm_socket (some r)) s =
    sandstorm-Adds k s (some (add r))
handle_notification-Adds k (Notification.remove_sandstorm_socket none) s = sandstorm-Adds k s none
handle_notification-Adds k (Notification.remove_sandstorm_socket (some r)) s =
    sandstorm-Adds k s (some (remove r))
handle_notification-Adds k (Notification.list_users r) s = write-Adds k s _ (refl, refl, refl)
handle_notification-Adds k (Notification.add_user r) s = write-Adds k s _ (refl, refl, refl)
handle_notification-Adds k (Notification.update_user r) s = write-Adds k s _ (refl, refl, refl)
handle_notification-Adds k (Notification.delete_user r) s = write-Adds k s _ (refl, refl, refl)
handle_notification-Adds k (Notification.list_auth_methods r) s =
    write-Adds k s _ (refl, refl, refl)
handle_notification-Adds k (Notification.toggle_auth_method r) s =
    write-Adds k s _ (refl, refl, refl)
handle_notification-Adds k (Notification.request_current_metrics no_receiver) s =
    metrics-Adds k s no_receiver
handle_notification-Adds k (Notification.request_current_metrics (receiver none)) s =
    metrics-Adds k s (receiver none)
handle_notification-Adds k (Notification.request_current_metrics (receiver (some m))) s =
    metrics-Adds k s (receiver (some m))
handle_notification-Adds k (Notification.get_buffer_size r) s = write-Adds k s _ (refl, refl, refl)
handle_notification-Adds k (Notification.set_buffer_size r) s =
    let t : HandlerState = write (Response.set_buffer_size r) s in
    let a = write-Adds k s (Response.set_buffer_size r) (refl, refl, refl) in
    (seen-same k (record t { unflushed = false }) t refl refl refl refl ∙ a.0, refl, refl)
handle_notification-Adds k Notification.meow s = write-Adds k s _ (refl, refl, refl)
