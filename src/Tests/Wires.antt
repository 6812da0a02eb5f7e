-- ===== src/Tests/Wires.antt =====
-- Messages between the server and its managers at concrete values.
use dust_devil.Utf8
use dust_devil.Base.{ℕ, ◌≤◌, ◌≡◌, ◌≢◌, ◌↔◌, ◌++◌, [], ◌∷◌, none, some, inl, arith}
use dust_devil.Io.{Text, Error, ErrorKind, error_new, ok}
use dust_devil.Io.Wire.{Wire}
use dust_devil.Serialize.Numbers.{negsuc}
use dust_devil.Serialize.Texts.Laws.{IsText}
use dust_devil.Serialize.Containers.{Result}
use dust_devil.Protocol.Events.{Event, users_saved_to_file}
use dust_devil.Protocol.Events.Write.{write_event}
use dust_devil.Protocol.Events.Read.{read_event}
use dust_devil.Protocol.Events.Laws.{Wire-event, event_seen}
use dust_devil.Protocol.Requests.{Request, write_request, read_request}
use dust_devil.Protocol.Requests.Laws.{Wire-request}
use dust_devil.Protocol.Responses.{Response, write_response, read_response}
use dust_devil.Protocol.Responses.Laws.{Wire-response, response_seen}
use dust_devil.Protocol.Handshake.{
  SandstormHandshake, handshake, write_handshake, read_with_version_check, unspecified_error,
  write_status, read_status,
}
use dust_devil.Protocol.Handshake.Laws.{Wire-checked_handshake, read_status-write_status_iff}

abbrev name : Text
name = b'j' ∷ 0xf1 ∷ []

name-IsText : (n : ℕ) → 3 ≤ n → IsText n name
unfolding Utf8.byte_len Utf8.as_bytes Utf8.encode_char
name-IsText n h = record {
  chars = (inl (omega arith), (inl (omega arith), tt));
  fits = omega (arith, h);
}

abbrev refused : Error
refused = error_new ErrorKind.unlisted name

abbrev not_saved : Event
not_saved = record {
  timestamp = negsuc 0;
  event_data = users_saved_to_file name (Result.err refused);
}

Wire-event_example : Wire (write_event not_saved) read_event (event_seen not_saved)
Wire-event_example =
    Wire-event not_saved
      (omega arith, (name-IsText 65535 (omega arith), name-IsText 65535 (omega arith)))

abbrev new_password : Request
new_password = Request.update_user name (some name) none

Wire-request_example : Wire (write_request new_password) read_request new_password
Wire-request_example =
    Wire-request new_password (name-IsText 255 (omega arith), name-IsText 255 (omega arith))

abbrev not_bound : Response
not_bound = Response.add_socks5_socket (Result.err refused)

Wire-response_example : Wire (write_response not_bound) read_response (response_seen not_bound)
Wire-response_example = Wire-response not_bound (name-IsText 65535 (omega arith))

abbrev login : SandstormHandshake
login = record { username = name; password = name }

Wire-checked_handshake_example :
    Wire (write_handshake login) read_with_version_check (handshake login)
Wire-checked_handshake_example =
    Wire-checked_handshake login (name-IsText 255 (omega arith), name-IsText 255 (omega arith))

read_status-write_status_iff_example :
    (read_status ((write_status unspecified_error []).1 ++ (1 ∷ []))
      ≡ ok (unspecified_error, 1 ∷ []))
    ↔ (unspecified_error ≢ unspecified_error)
read_status-write_status_iff_example = read_status-write_status_iff unspecified_error (1 ∷ [])
