-- ===== src/Protocol/Responses/Laws.antt =====
-- Responses of dust-devil-core/src/sandstorm, written and read.
use dust_devil.Base.{◌<◌, ◌^◌, refl, [], ◌∷◌, append_assoc, str_eq}
use dust_devil.Io.Reader.{◌>>=◌, pure, take_byte, read_exact}
use dust_devil.Io.Writer.{◌>>◌, write_all}
use dust_devil.Io.Wire.{Wire, Wire-bind, Wire-end}
use dust_devil.Serialize.Numbers.{write_u8}
use dust_devil.Serialize.Numbers.Laws.{Wire-bool, Wire-uint}
use dust_devil.Protocol.Commands.{SandstormCommandType, Wire-command}
use dust_devil.Protocol.Results.{
  Wire-remove_socket_result, Wire-add_user_result, Wire-update_user_result, Wire-delete_user_result,
}
use dust_devil.Protocol.Metrics.{IsConfigResponse, Wire-config_response}
use dust_devil.Protocol.Events.Laws.{IsEvent, event_seen, Wire-event}
use dust_devil.Protocol.Events.Results.{IsFinished, finished_seen, Wire-finished}
use dust_devil.Protocol.Responses.Lists.{
  IsAddresses, Wire-addresses, IsUserList, Wire-user_list, IsAuthMethods, Wire-auth_methods,
  IsOptionalMetrics, Wire-optional_metrics,
}
use dust_devil.Protocol.Responses.{Response, write_response, response_of, read_response}

-- What the Rust types promise of the values inside; texts and lists short enough to be written.
abbrev pub IsResponse : Response → Type 0
IsResponse (Response.event_stream_config r) = IsConfigResponse r
IsResponse (Response.event_stream r) = IsEvent r
IsResponse (Response.list_socks5_sockets r) = IsAddresses r
IsResponse (Response.add_socks5_socket r) = IsFinished r
IsResponse (Response.list_sandstorm_sockets r) = IsAddresses r
IsResponse (Response.add_sandstorm_socket r) = IsFinished r
IsResponse (Response.list_users r) = IsUserList r
IsResponse (Response.list_auth_methods r) = IsAuthMethods r
IsResponse (Response.request_current_metrics r) = IsOptionalMetrics r
IsResponse (Response.get_buffer_size r) = (r < 256 ^ 4)
IsResponse r = Unit {0}

-- The response that the client sees: I/O errors inside keep their text and, if it has a number,
-- their kind.
unfoldable pub response_seen : Response → Response
response_seen (Response.event_stream r) = Response.event_stream (event_seen r)
response_seen (Response.add_socks5_socket r) = Response.add_socks5_socket (finished_seen r)
response_seen (Response.add_sandstorm_socket r) = Response.add_sandstorm_socket (finished_seen r)
response_seen r = r

Wire-meow :
    Wire
      (write_u8 b'M' >> (write_u8 b'E' >> (write_u8 b'O' >> write_u8 b'W')))
      (response_of SandstormCommandType.meow)
      Response.meow
unfolding response_of
Wire-meow = record {
  bytes = b'M' ∷ b'E' ∷ b'O' ∷ b'W' ∷ [];
  writes = λ out. unfold ◌>>◌ write_u8 write_all in simp append_assoc;
  reads = λ rest. unfold ◌>>=◌ read_exact take_byte pure str_eq in refl;
}

-- A response of any kind, its numbers in range and its texts and lists short enough to be written,
-- travels to the client; the kinds of the errors inside arrive as `error_seen` says.
pub Wire-response :
    (r : Response) → IsResponse r → Wire (write_response r) read_response (response_seen r)
unfolding write_response read_response response_seen
Wire-response Response.shutdown h = Wire-end _ (Wire-command _) refl
Wire-response Response.meow h = Wire-bind _ (Wire-command _) Wire-meow
Wire-response (Response.event_stream_config r) h =
    Wire-bind _ (Wire-command _) (Wire-end _ (Wire-config_response r h) refl)
Wire-response (Response.event_stream r) h =
    Wire-bind _ (Wire-command _) (Wire-end _ (Wire-event r h) refl)
Wire-response (Response.list_socks5_sockets r) h =
    Wire-bind _ (Wire-command _) (Wire-end _ (Wire-addresses r h) refl)
Wire-response (Response.add_socks5_socket r) h =
    Wire-bind _ (Wire-command _) (Wire-end _ (Wire-finished r h) refl)
Wire-response (Response.remove_socks5_socket r) h =
    Wire-bind _ (Wire-command _) (Wire-end _ (Wire-remove_socket_result r) refl)
Wire-response (Response.list_sandstorm_sockets r) h =
    Wire-bind _ (Wire-command _) (Wire-end _ (Wire-addresses r h) refl)
Wire-response (Response.add_sandstorm_socket r) h =
    Wire-bind _ (Wire-command _) (Wire-end _ (Wire-finished r h) refl)
Wire-response (Response.remove_sandstorm_socket r) h =
    Wire-bind _ (Wire-command _) (Wire-end _ (Wire-remove_socket_result r) refl)
Wire-response (Response.list_users r) h =
    Wire-bind _ (Wire-command _) (Wire-end _ (Wire-user_list r h) refl)
Wire-response (Response.add_user r) h =
    Wire-bind _ (Wire-command _) (Wire-end _ (Wire-add_user_result r) refl)
Wire-response (Response.update_user r) h =
    Wire-bind _ (Wire-command _) (Wire-end _ (Wire-update_user_result r) refl)
Wire-response (Response.delete_user r) h =
    Wire-bind _ (Wire-command _) (Wire-end _ (Wire-delete_user_result r) refl)
Wire-response (Response.list_auth_methods r) h =
    Wire-bind _ (Wire-command _) (Wire-end _ (Wire-auth_methods r h) refl)
Wire-response (Response.toggle_auth_method r) h =
    Wire-bind _ (Wire-command _) (Wire-end _ (Wire-bool r) refl)
Wire-response (Response.request_current_metrics r) h =
    Wire-bind _ (Wire-command _) (Wire-end _ (Wire-optional_metrics r h) refl)
Wire-response (Response.get_buffer_size r) h =
    Wire-bind _ (Wire-command _) (Wire-end _ (Wire-uint 4 r h) refl)
Wire-response (Response.set_buffer_size r) h =
    Wire-bind _ (Wire-command _) (Wire-end _ (Wire-bool r) refl)
