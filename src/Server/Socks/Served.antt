-- ===== src/Server/Socks/Served.antt =====
-- What a client that speaks socks5 is to be served, as RFC 1928 and RFC 1929 have it, with the bytes of every
-- answer written out.
use dust_devil.Base.{
  ℕ, Bool, true, false, ◌&&◌, Option, none, some, List, [], ◌∷◌, ◌++◌, ◌==◌, if◌then◌else◌,
}
use dust_devil.Io.{Bytes, Text, text, Error, ErrorKind, Outcome, ok, err}
use dust_devil.Serialize.Numbers.{be_bytes}
use dust_devil.Serialize.Addresses.{SocketAddr, v4, v6}
use dust_devil.Serialize.Containers.{Result}
use dust_devil.Protocol.Socks.{
  AuthMethod, no_auth, username_and_password, SocksRequest, SocksRequestAddress, ipv4, ipv6,
  domainname,
}
use dust_devil.Server.Context.{ServerState}
use dust_devil.Server.Users.Lookup.{find, has_password}
use dust_devil.Server.Socks.{Attempt, bind_failed, connect_failed, connected}
use dust_devil.Server.Socks.Auth.{credential_bytes}

abbrev pub offers : ℕ → Bytes → Bool
offers method [] = false
offers method (m ∷ methods) = if m == method then true else offers method methods

-- The method: none needed, 0, before name and password, 2, of those that are enabled and offered.
abbrev pub chosen : ServerState → Bytes → Option AuthMethod
chosen s methods =
    if offers 0 methods && s.no_auth_enabled
    then some no_auth
    else if offers 2 methods && s.userpass_auth_enabled
    then some username_and_password
    else none

-- The answer to the handshake: the version and the method, 255 for none.
abbrev pub method_reply : Option AuthMethod → Bytes
method_reply (some no_auth) = 5 ∷ 0 ∷ []
method_reply (some username_and_password) = 5 ∷ 2 ∷ []
method_reply none = 5 ∷ 255 ∷ []

-- The answer to a request: the version, the code, the reserved byte, and the address, zeroes for none.
abbrev pub reply : (code : ℕ) → Option SocketAddr → Bytes
reply code (some (v4 a)) = 5 ∷ code ∷ 0 ∷ 1 ∷ a.ip ++ be_bytes 2 a.port
reply code (some (v6 a)) = 5 ∷ code ∷ 0 ∷ 4 ∷ a.ip ++ be_bytes 2 a.port
reply code none = 5 ∷ code ∷ 0 ∷ 1 ∷ 0 ∷ 0 ∷ 0 ∷ 0 ∷ 0 ∷ 0 ∷ []

-- The code of a connection that fails: 2 not allowed, 3 network unreachable, 4 host unreachable, 5 refused,
-- 8 address type not supported, 1 for the others.
abbrev pub refusal : ErrorKind → ℕ
refusal ErrorKind.permission_denied = 2
refusal ErrorKind.not_connected = 3
refusal ErrorKind.timed_out = 4
refusal ErrorKind.connection_refused = 5
refusal ErrorKind.connection_reset = 5
refusal ErrorKind.connection_aborted = 5
refusal ErrorKind.addr_not_available = 8
refusal ErrorKind.unsupported = 8
refusal _ = 1

-- The first address that connects, or the code of the latest that refused.
abbrev pub destined : (SocketAddr → Attempt) → (code : ℕ) → List SocketAddr → Result SocketAddr ℕ
destined try code [] = Result.err code
destined try code (a ∷ more) = elim (try a) [
  | bind_failed e ↦ destined try code more
  | connect_failed e ↦ destined try (refusal e.kind) more
  | connected ↦ Result.ok a
]

-- Addresses with this port in place of theirs.
abbrev pub at_port : ℕ → List SocketAddr → List SocketAddr
at_port port [] = []
at_port port (v4 a ∷ more) = v4 (record { ip = a.ip; port = port }) ∷ at_port port more
at_port port (v6 a ∷ more) =
    v6 (record { ip = a.ip; port = port; flowinfo = a.flowinfo; scope_id = a.scope_id })
    ∷ at_port port more

-- What a client sends behind the handshake, where this method is chosen.
abbrev pub spoken : Option AuthMethod → (username password : Text) → Bytes
spoken (some username_and_password) username password = credential_bytes username password
spoken _ username password = []

-- How a connection ends and what has been written to the client, without the events.
abbrev pub Outline : Type 0
Outline = Outcome (Option (SocketAddr × Bytes)) × Bytes

module _ (try : SocketAddr → Attempt) (lookup : Text → Result (List SocketAddr) Error)
    (local_addr : SocketAddr → Option SocketAddr) where
  -- The addresses of a request: its own, or those of its name, each with its port.
  abbrev pub found : SocksRequestAddress → (port : ℕ) → Result (List SocketAddr) Error
  found (ipv4 o) port = Result.ok (v4 (record { ip = o; port = port }) ∷ [])
  found (ipv6 o) port =
      Result.ok (v6 (record { ip = o; port = port; flowinfo = 0; scope_id = 0 }) ∷ [])
  found (domainname d) port = elim (lookup (d ++ text ":0")) [
    | Result.ok l ↦ Result.ok (at_port port l)
    | Result.err e ↦ Result.err e
  ]

  abbrev pub connected_to : (rest answers : Bytes) → Result SocketAddr ℕ → Outline
  connected_to rest answers (Result.ok a) = (ok (some (a, rest)), answers ++ reply 0 (local_addr a))
  connected_to rest answers (Result.err code) = (ok none, answers ++ reply code none)

  -- The host is unreachable where no address has refused.
  abbrev pub reached : (rest answers : Bytes) → Result (List SocketAddr) Error → Outline
  reached rest answers (Result.ok addresses) = connected_to rest answers (destined try 4 addresses)
  reached rest answers (Result.err e) = (err e, answers)

  -- What a client with these credentials and this request is served.
  unfoldable pub served :
      ServerState
      → (username password : Text) → SocksRequest
      → (rest : Bytes) → Option AuthMethod
      → Outline
  served s username password r rest none = (ok none, method_reply none)
  served s username password r rest (some no_auth) =
      reached rest (method_reply (some no_auth)) (found r.destination r.port)
  served s username password r rest (some username_and_password) =
      if has_password (find username s.users) password
      then reached rest (5 ∷ 2 ∷ 1 ∷ 0 ∷ []) (found r.destination r.port)
      else (ok none, 5 ∷ 2 ∷ 1 ∷ 1 ∷ [])
