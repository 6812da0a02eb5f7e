-- ===== src/Tests/Sockets.antt =====
-- A client's connection at concrete bytes.
use dust_devil.Base.{
  ℕ, ◌≡◌, refl, true, false, Option, some, none, List, [], ◌∷◌, ◌++◌, str_eq, arith, inl,
}
use dust_devil.Io.{ok, Text, text, Error, ErrorKind, error_new}
use dust_devil.Utf8.{byte_len, as_bytes, encode_char}
use dust_devil.Serialize.Addresses.{SocketAddr, v4, v6}
use dust_devil.Serialize.Containers.{Result}
use dust_devil.Serialize.Texts.Laws.{IsText}
use dust_devil.Protocol.Socks.{username_and_password, SocksRequest, domainname, socks_request}
use dust_devil.Protocol.Users.{admin}
use dust_devil.Server.Context.{ServerState}
use dust_devil.Server.Socks.{Attempt, connect_failed, connected}
use dust_devil.Server.Socks.Parse.{request_bytes}
use dust_devil.Server.Socks.Session.{handle_socks5_inner}
use dust_devil.Server.Socks.Flow.{outline, handle_socks5_inner-served}
use dust_devil.Server.Socks.Served.{spoken, served}

abbrev ana : Text
ana = text "ana"

ana-IsText : IsText 255 ana
unfolding byte_len as_bytes encode_char
ana-IsText = record {
  chars = (inl (omega arith), (inl (omega arith), (inl (omega arith), tt)));
  fits = omega arith;
}

abbrev state : ServerState
state = record {
  users = record { users = (ana, record { password = ana; role = admin }) ∷ []; admin_count = 1 };
  no_auth_enabled = false;
  userpass_auth_enabled = true;
  buffer_size = 8192;
  has_metrics = true;
}

-- A name with an address of each family, of which the second connects.
abbrev found : Text → Result (List SocketAddr) Error
found d = Result.ok (
    v6 (record {
      ip = 0 ∷ 0 ∷ 0 ∷ 0 ∷ 0 ∷ 0 ∷ 0 ∷ 0 ∷ 0 ∷ 0 ∷ 0 ∷ 0 ∷ 0 ∷ 0 ∷ 0 ∷ 1 ∷ [];
      port = 0;
      flowinfo = 0;
      scope_id = 0;
    })
    ∷ v4 (record { ip = 10 ∷ 0 ∷ 0 ∷ 1 ∷ []; port = 0 })
    ∷ [])

abbrev tried : SocketAddr → Attempt
tried (v4 a) = connected
tried (v6 a) = connect_failed (error_new ErrorKind.connection_refused [])

abbrev bound : SocketAddr → Option SocketAddr
bound a = none

abbrev wanted : SocksRequest
wanted = socks_request (domainname (text "ab")) 80

abbrev two_by_two : ℕ → ℕ
two_by_two n = 2

-- The name and password are asked for, and the second address is relayed to, at the port of the request.
handle_socks5_inner-served_example :
    outline (
      handle_socks5_inner 7 tried found bound two_by_two 255 state (
        5 ∷ 2 ∷ 0 ∷ 2 ∷ []
        ++ (spoken (some username_and_password) ana ana ++ (request_bytes wanted ++ ana))))
    ≡ some (
      ok (some (v4 (record { ip = 10 ∷ 0 ∷ 0 ∷ 1 ∷ []; port = 80 }), ana)),
      5 ∷ 2 ∷ 1 ∷ 0 ∷ 5 ∷ 0 ∷ 0 ∷ 1 ∷ 0 ∷ 0 ∷ 0 ∷ 0 ∷ 0 ∷ 0 ∷ [],
    )
unfolding served str_eq dust_devil.Server.Table.lookup
handle_socks5_inner-served_example =
    handle_socks5_inner-served 7 tried found bound two_by_two 255 state ana ana wanted ana
      (0 ∷ 2 ∷ []) ana-IsText ana-IsText (omega arith)
      (omega arith, omega arith, (refl, (refl, tt))) (omega arith)
