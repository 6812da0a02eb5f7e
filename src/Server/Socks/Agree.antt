-- ===== src/Server/Socks/Agree.antt =====
-- The parts of dust-devil/src/socks5/mod.rs and responses.rs, against what is to be served.
use dust_devil.Base.{ℕ, ◌≡◌, refl, ap, ◌∙◌, Option, none, some, List, [], ◌∷◌, map, arith}
use dust_devil.Io.{Bytes, Text, ErrorKind}
use dust_devil.Serialize.Numbers.{be_bytes}
use dust_devil.Serialize.Addresses.{SocketAddr, v4, v6}
use dust_devil.Serialize.Containers.{Result}
use dust_devil.Protocol.Socks.{AuthMethod, no_auth, username_and_password}
use dust_devil.Server.Context.{ServerState}
use dust_devil.Server.Socks.{
  Attempt, bind_failed, connect_failed, connected, SocksStatus, contains, select_auth_method,
  status_byte, status_of_error, handshake_response, request_response,
}
use dust_devil.Server.Socks.Laws.{first_connected}
use dust_devil.Server.Socks.Served.{offers, chosen, method_reply, reply, refusal, destined, at_port}
use dust_devil.Server.Socks.Session.{set_port}

offers-contains : (b : ℕ) (bs : Bytes) → contains b bs ≡ offers b bs
offers-contains b [] = refl
offers-contains b (c ∷ bs) = ground (arith, offers-contains b bs)

pub select_auth_method-chosen :
    (s : ServerState) (methods : Bytes) → select_auth_method s methods ≡ chosen s methods
unfolding select_auth_method
select_auth_method-chosen s methods =
    ground (arith, offers-contains 0 methods, offers-contains 2 methods)

pub handshake_response-method_reply :
    (m : Option AuthMethod) → handshake_response m ≡ method_reply m
unfolding handshake_response
handshake_response-method_reply none = refl
handshake_response-method_reply (some no_auth) = refl
handshake_response-method_reply (some username_and_password) = refl

pub request_response-reply :
    (status : SocksStatus) (bound : Option SocketAddr)
    → request_response status bound ≡ reply (status_byte status) bound
unfolding request_response be_bytes
request_response-reply status none = refl
request_response-reply status (some (v4 a)) = refl
request_response-reply status (some (v6 a)) = refl

status-refusal :
    (k : ErrorKind) (message : Text)
    → status_byte (status_of_error (record { kind = k; message = message })) ≡ refusal k
unfolding status_of_error
status-refusal ErrorKind.not_found message = refl
status-refusal ErrorKind.permission_denied message = refl
status-refusal ErrorKind.connection_refused message = refl
status-refusal ErrorKind.connection_reset message = refl
status-refusal ErrorKind.connection_aborted message = refl
status-refusal ErrorKind.not_connected message = refl
status-refusal ErrorKind.addr_in_use message = refl
status-refusal ErrorKind.addr_not_available message = refl
status-refusal ErrorKind.broken_pipe message = refl
status-refusal ErrorKind.already_exists message = refl
status-refusal ErrorKind.would_block message = refl
status-refusal ErrorKind.invalid_input message = refl
status-refusal ErrorKind.invalid_data message = refl
status-refusal ErrorKind.timed_out message = refl
status-refusal ErrorKind.write_zero message = refl
status-refusal ErrorKind.interrupted message = refl
status-refusal ErrorKind.unsupported message = refl
status-refusal ErrorKind.unexpected_eof message = refl
status-refusal ErrorKind.out_of_memory message = refl
status-refusal ErrorKind.other message = refl
status-refusal ErrorKind.unlisted message = refl

-- What a connection came to, with the code of its status.
abbrev pub coded : Result SocketAddr SocksStatus → Result SocketAddr ℕ
coded (Result.ok a) = Result.ok a
coded (Result.err status) = Result.err (status_byte status)

pub first_connected-destined :
    (try : SocketAddr → Attempt) (status : SocksStatus) (l : List SocketAddr)
    → coded (first_connected try status l) ≡ destined try (status_byte status) l
unfolding first_connected
first_connected-destined try status [] = refl
first_connected-destined try status (a ∷ more) =
    by_attempt (try a) (λ l. first_connected-destined try l more)
  where
    by_attempt :
        (o : Attempt)
        → ((last : SocksStatus)
            → coded (first_connected try last more) ≡ destined try (status_byte last) more)
        → coded (elim o as (λ x. Result SocketAddr SocksStatus) [
          | bind_failed e ↦ first_connected try status more
          | connect_failed e ↦ first_connected try (status_of_error e) more
          | connected ↦ Result.ok a
        ])
          ≡ (elim o as (λ x. Result SocketAddr ℕ) [
            | bind_failed e ↦ destined try (status_byte status) more
            | connect_failed e ↦ destined try (refusal e.kind) more
            | connected ↦ Result.ok a
          ])
    by_attempt (bind_failed e) ih = ih status
    by_attempt (connect_failed e) ih =
        ih (status_of_error e) ∙ ap (λ c. destined try c more) (status-refusal e.kind e.message)
    by_attempt connected ih = refl

pub at_port-map : (port : ℕ) (l : List SocketAddr) → map (set_port port) l ≡ at_port port l
at_port-map port [] = refl
at_port-map port (v4 a ∷ more) = ap (λ t. v4 (record a { port = port }) ∷ t) (at_port-map port more)
at_port-map port (v6 a ∷ more) = ap (λ t. v6 (record a { port = port }) ∷ t) (at_port-map port more)
