-- ===== src/Server/Socks/Laws.antt =====
-- The socks5 side of the server, dust-devil/src/socks5/{mod, parsers}.rs, on a client's bytes.
use dust_devil.Base.{
  ◌==◌, if◌then◌else◌, ℕ, zero, suc, ◌≤◌, ◌<◌, ◌^◌, ◌≡◌, ◌↔◌, refl, sym, ap, ◌∙◌, true, false,
  Option, none, some, List, [], ◌∷◌, ◌++◌, length, arith, append_assoc, append-nil, All, ◌⊎◌,
}
use dust_devil.Io.{Bytes, ok}
use dust_devil.Io.Reader.{◌>>=◌, continue, pure, take_byte}
use dust_devil.Io.Wire.{read_exact_fit, read_exact-append}
use dust_devil.Serialize.Numbers.{read_u8, be_bytes}
use dust_devil.Serialize.Addresses.{SocketAddr}
use dust_devil.Serialize.Containers.{Result}
use dust_devil.Protocol.Events.{
  EventData, client_attempting_connect, client_connection_attempt_bind_failed,
  client_connection_attempt_connect_failed,
}
use dust_devil.Protocol.Socks.{
  no_auth, username_and_password, SocksRequest, SocksRequestAddress, ipv4, ipv6, domainname,
  socks_request,
}
use dust_devil.Server.Context.{ServerState}
use dust_devil.Server.Socks.Domain.{
  is_domain_byte, read_domainname, read_domain_loop_lem, domain_bytes,
}
use dust_devil.Server.Socks.Parse.{
  parse_handshake, parse_head, after_domain, parse_address, after_head, parse_request,
  request_bytes, IsRequestable, read_u16-be_bytes, with_port, octets,
}
use dust_devil.Server.Socks.{
  SocksStatus, Attempt, connected, bind_failed, connect_failed, connect_loop, connect_socket,
  or_unreachable, status_of_error, contains, select_auth_method, host_unreachable,
}

domain_bytes-name :
    (d buf rest : Bytes)
    → All (λ c. is_domain_byte c ≡ true) d
    → domain_bytes (length d) buf (d ++ rest) ≡ some (ok (buf ++ d, rest))
unfolding domain_bytes
domain_bytes-name [] buf rest h = λ i. some (ok (sym (append-nil buf) i, rest))
domain_bytes-name (c ∷ d) buf rest h =
    let p = append_assoc buf (c ∷ []) d in
    ground (arith, p, h.0, domain_bytes-name d (buf ++ c ∷ []) rest h.1)

domain_bytes-short :
    (d buf : Bytes) (n : ℕ)
    → length d < n
    → All (λ c. is_domain_byte c ≡ true) d
    → domain_bytes n buf d ≡ none
unfolding domain_bytes
domain_bytes-short d buf zero b h = ground (arith, b)
domain_bytes-short [] buf (suc n) b h = refl
domain_bytes-short (c ∷ d) buf (suc n) b h =
    ground (arith, h.0, domain_bytes-short d (buf ++ c ∷ []) n (omega (arith, b)) h.1)

-- A name that its connection cuts short is waited for without end: whatever fuel is given from a
-- unit for each byte on, the loop is not over.
pub read_domainname_stuck :
    (sizes : ℕ → ℕ) (fuel n : ℕ) (d : Bytes)
    → n ≤ fuel
    → length d < n
    → All (λ c. is_domain_byte c ≡ true) d
    → read_domainname sizes fuel (n ∷ d) ≡ none
unfolding read_domainname
read_domainname_stuck sizes fuel n d f b h =
    ground (arith, read_domain_loop_lem sizes fuel n [] d f, domain_bytes-short d [] n b h, b)

read_domainname-name :
    (sizes : ℕ → ℕ) (fuel : ℕ) (d rest : Bytes)
    → length d ≤ fuel
    → 0 < length d
    → All (λ c. is_domain_byte c ≡ true) d
    → read_domainname sizes fuel (length d ∷ d ++ rest) ≡ some (ok (d, rest))
unfolding read_domainname
read_domainname-name sizes fuel d rest f n h = ground (
  arith,
  read_domain_loop_lem sizes fuel (length d) [] (d ++ rest) f,
  domain_bytes-name d [] rest h,
  n,
)

with_port-bytes :
    (a : SocksRequestAddress) (p : ℕ) (rest : Bytes)
    → p < 256 ^ 2
    → with_port a (be_bytes 2 p ++ rest) ≡ ok (Result.ok (socks_request a p), rest)
unfolding ◌>>=◌ pure
with_port-bytes a p rest h = rw (read_u16-be_bytes p rest h)

octets-bytes :
    (n : ℕ) (f : Bytes → SocksRequestAddress) (o : Bytes) (p : ℕ) (rest : Bytes)
    → length o ≡ n
    → p < 256 ^ 2
    → octets n f (o ++ (be_bytes 2 p ++ rest)) ≡ ok (Result.ok (socks_request (f o) p), rest)
unfolding ◌>>=◌ continue
octets-bytes n f o p rest e h =
    ap (λ x. continue x (λ o'. with_port (f o'))) (read_exact_fit n o (be_bytes 2 p ++ rest) e)
    ∙ with_port-bytes (f o) p rest h

parse_request-address :
    (sizes : ℕ → ℕ) (fuel t : ℕ) (src : Bytes)
    → parse_request sizes fuel (5 ∷ 1 ∷ 0 ∷ t ∷ src) ≡ parse_address sizes fuel t src
unfolding parse_request parse_head after_head read_u8 take_byte ◌>>=◌ pure
parse_request-address sizes fuel t src = refl

parse_address-bytes :
    (sizes : ℕ → ℕ) (fuel : ℕ) (a : SocksRequestAddress) (p : ℕ) (rest : Bytes)
    → 255 ≤ fuel
    → IsRequestable a
    → p < 256 ^ 2
    → parse_request sizes fuel (request_bytes (socks_request a p) ++ rest)
      ≡ some (ok (Result.ok (socks_request a p), rest))
unfolding parse_address after_domain
parse_address-bytes sizes fuel (ipv4 o) p rest f v h =
    parse_request-address sizes fuel 1 ((o ++ be_bytes 2 p) ++ rest)
    ∙ ap (λ t. some (octets 4 ipv4 t)) (append_assoc o (be_bytes 2 p) rest)
    ∙ ap some (octets-bytes 4 ipv4 o p rest v h)
parse_address-bytes sizes fuel (ipv6 o) p rest f v h =
    parse_request-address sizes fuel 4 ((o ++ be_bytes 2 p) ++ rest)
    ∙ ap (λ t. some (octets 16 ipv6 t)) (append_assoc o (be_bytes 2 p) rest)
    ∙ ap some (octets-bytes 16 ipv6 o p rest v h)
parse_address-bytes sizes fuel (domainname d) p rest f (n, m, v) h =
    parse_request-address sizes fuel 3 (length d ∷ (d ++ be_bytes 2 p) ++ rest)
    ∙ ap (λ t. after_domain (read_domainname sizes fuel (length d ∷ t)))
        (append_assoc d (be_bytes 2 p) rest)
    ∙ ap after_domain
        (read_domainname-name sizes fuel d (be_bytes 2 p ++ rest) (omega (arith, m, f)) n v)
    ∙ ap some (with_port-bytes (domainname d) p rest h)

-- A request that a client writes as RFC 1928 has it is read back as it was, however the socket cuts
-- its domain name into pieces, and what follows is left.
pub parse_request-request_bytes :
    (sizes : ℕ → ℕ) (fuel : ℕ) (r : SocksRequest) (rest : Bytes)
    → 255 ≤ fuel
    → IsRequestable r.destination
    → r.port < 256 ^ 2
    → parse_request sizes fuel (request_bytes r ++ rest) ≡ some (ok (Result.ok r, rest))
parse_request-request_bytes sizes fuel r rest f v p =
    parse_address-bytes sizes fuel r.destination r.port rest f v p

-- A handshake with any methods is read to its end where its version is 5; of another version the
-- first byte alone is taken, and given back.
pub parse_handshake_lem :
    (ver : ℕ) (methods rest : Bytes)
    → parse_handshake (ver ∷ length methods ∷ methods ++ rest) ≡ (
        if ver == 5
        then ok (Result.ok methods, rest)
        else ok (Result.err ver, length methods ∷ methods ++ rest))
unfolding parse_handshake read_u8 take_byte ◌>>=◌ continue pure
parse_handshake_lem ver methods rest = ground (arith, read_exact-append methods rest)

-- `select_auth_method` takes a method exactly where it is the first of the two that the server has
-- enabled and the client offers.
select_auth_method_iff :
    (s : ServerState) (methods : Bytes)
    → ((select_auth_method s methods ≡ some no_auth)
        ↔ ((s.no_auth_enabled ≡ true) × (contains 0 methods ≡ true)))
      × ((select_auth_method s methods ≡ some username_and_password) ↔ (
          (s.userpass_auth_enabled ≡ true)
          × (contains 2 methods ≡ true)
          × ((s.no_auth_enabled ≡ false) ⊎ (contains 0 methods ≡ false))))
unfolding select_auth_method
select_auth_method_iff s methods = ground arith

-- What `connect_loop` ends with: the first address that connects, or the status of the latest that
-- refused.
unfoldable pub first_connected :
    (SocketAddr → Attempt) → SocksStatus → List SocketAddr → Result SocketAddr SocksStatus
first_connected try last [] = Result.err last
first_connected try last (a ∷ more) = elim (try a) [
  | bind_failed e ↦ first_connected try last more
  | connect_failed e ↦ first_connected try (status_of_error e) more
  | connected ↦ Result.ok a
]

connect_round :
    (try : SocketAddr → Attempt) (id : ℕ) (last : Option SocksStatus) (events : List EventData)
    (a : SocketAddr) (more : List SocketAddr) (o : Attempt)
    → try a ≡ o
    → ((l : Option SocksStatus) (ev : List EventData)
        → (connect_loop try id l ev more).0 ≡ first_connected try (or_unreachable l) more)
    → (connect_loop try id last events (a ∷ more)).0
      ≡ first_connected try (or_unreachable last) (a ∷ more)
unfolding connect_loop first_connected
connect_round try id last events a more (bind_failed e) q ih = ground (
  arith,
  q,
  ih last (
      (events ++ client_attempting_connect id a ∷ [])
      ++ client_connection_attempt_bind_failed id e ∷ []),
)
connect_round try id last events a more (connect_failed e) q ih = ground (
  arith,
  q,
  ih (some (status_of_error e)) (
      (events ++ client_attempting_connect id a ∷ [])
      ++ client_connection_attempt_connect_failed id e ∷ []),
)
connect_round try id last events a more connected q ih = ground (arith, q)

connect_loop_lem :
    (try : SocketAddr → Attempt) (id : ℕ) (last : Option SocksStatus) (events : List EventData)
    (addresses : List SocketAddr)
    → (connect_loop try id last events addresses).0
      ≡ first_connected try (or_unreachable last) addresses
unfolding connect_loop first_connected
connect_loop_lem try id last events [] = refl
connect_loop_lem try id last events (a ∷ more) =
    connect_round try id last events a more (try a) refl (λ l ev. connect_loop_lem try id l ev more)

-- `connect_socket` connects to the first address that accepts; where none does it gives the status
-- of the latest that refused, and HostUnreachable where no address refused.
pub connect_socket_lem :
    (try : SocketAddr → Attempt) (id : ℕ) (events : List EventData) (addresses : List SocketAddr)
    → (connect_socket try id events addresses).0 ≡ first_connected try host_unreachable addresses
unfolding connect_socket
connect_socket_lem try id events addresses = connect_loop_lem try id none events addresses
