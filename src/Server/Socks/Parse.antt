-- ===== src/Server/Socks/Parse.antt =====
-- The handshake and the request of a socks5 client (dust-devil/src/socks5/parsers.rs).
use dust_devil.Base.{
  ℕ, ◌<◌, ◌^◌, ◌≡◌, true, not, Option, none, some, ◌∷◌, ◌++◌, length, ◌==◌, if◌then◌else◌, All,
}
use dust_devil.Io.{Bytes, Text, Outcome, ok, eof, err}
use dust_devil.Io.Reader.{Reader, ◌>>=◌, pure, read_exact}
use dust_devil.Io.Wire.{read_exact_fit}
use dust_devil.Serialize.Numbers.{read_u8, read_u16, read_uint, be_bytes}
use dust_devil.Serialize.Numbers.Laws.{be_value-be_bytes, length-be_bytes}
use dust_devil.Serialize.Containers.{Result}
use dust_devil.Protocol.Socks.{
  SocksRequest, SocksRequestAddress, ipv4, ipv6, domainname, socks_request,
}
use dust_devil.Server.Socks.Domain.{is_domain_byte, read_domainname}
use dust_devil.Server.Socks.{
  SocksStatus, general_failure, command_not_supported, address_type_not_supported,
}

abbrev methods_of : ℕ → Reader (Result Bytes ℕ)
methods_of n = do methods ← read_exact n; pure (Result.ok methods)

-- `Err` of an invalid version; failures of the connection are the reader's.
unfoldable pub parse_handshake : Reader (Result Bytes ℕ)
parse_handshake = do
  ver ← read_u8
  if not (ver == 5) then pure (Result.err ver) else do n ← read_u8; methods_of n

pub data ParseRequestError : Type 0 where
  invalid_version unsupported_command invalid_atyp : ℕ → ParseRequestError

-- `SocksStatus::from(ParseRequestError)`, but for the reader's own failures.
unfoldable pub status_of_parse_error : ParseRequestError → SocksStatus
status_of_parse_error (unsupported_command c) = command_not_supported
status_of_parse_error (invalid_atyp t) = address_type_not_supported
status_of_parse_error (invalid_version v) = general_failure

-- The version, the command, the reserved byte and the address type.
unfoldable pub parse_head : Reader (Result ℕ ParseRequestError)
parse_head = do
  ver ← read_u8
  if not (ver == 5) then pure (Result.err (invalid_version ver)) else do
    cmd ← read_u8
    if not (cmd == 1)
        then pure (Result.err (unsupported_command cmd))
        else do rsv ← read_u8; atyp ← read_u8; pure (Result.ok atyp)

abbrev pub Parsed : Type 0
Parsed = Option (Outcome (Result SocksRequest ParseRequestError × Bytes))

abbrev pub with_port : SocksRequestAddress → Reader (Result SocksRequest ParseRequestError)
with_port a = do port ← read_u16; pure (Result.ok (socks_request a port))

abbrev pub octets :
    ℕ → (Bytes → SocksRequestAddress) → Reader (Result SocksRequest ParseRequestError)
octets n f = do o ← read_exact n; with_port (f o)

unfoldable pub after_domain : Option (Outcome (Text × Bytes)) → Parsed
after_domain none = none
after_domain (some (ok (d, rest))) = some (with_port (domainname d) rest)
after_domain (some eof) = some eof
after_domain (some (err e)) = some (err e)

unfoldable pub parse_address : (sizes : ℕ → ℕ) (fuel atyp : ℕ) → Bytes → Parsed
unfolding after_domain
parse_address sizes fuel atyp src =
    if atyp == 1
    then some (octets 4 ipv4 src)
    else if atyp == 3
    then after_domain (read_domainname sizes fuel src)
    else if atyp == 4
    then some (octets 16 ipv6 src)
    else some (ok (Result.err (invalid_atyp atyp), src))

unfoldable pub after_head :
    (sizes : ℕ → ℕ) (fuel : ℕ) → Outcome (Result ℕ ParseRequestError × Bytes) → Parsed
unfolding parse_address
after_head sizes fuel (ok (Result.ok atyp, rest)) = parse_address sizes fuel atyp rest
after_head sizes fuel (ok (Result.err e, rest)) = some (ok (Result.err e, rest))
after_head sizes fuel eof = some eof
after_head sizes fuel (err e) = some (err e)

-- `none` where the reading of a domain name is not over when the fuel is.
unfoldable pub parse_request : (sizes : ℕ → ℕ) (fuel : ℕ) → Bytes → Parsed
unfolding parse_head after_head
parse_request sizes fuel src = after_head sizes fuel (parse_head src)

-- A request as RFC 1928 has it.
abbrev address_bytes : SocksRequestAddress → Bytes
address_bytes (ipv4 o) = 1 ∷ o
address_bytes (ipv6 o) = 4 ∷ o
address_bytes (domainname d) = 3 ∷ length d ∷ d

abbrev pub request_bytes : SocksRequest → Bytes
request_bytes r = 5 ∷ 1 ∷ 0 ∷ address_bytes r.destination ++ be_bytes 2 r.port

-- An address that a request can hold: octets of the right number, or a name of 1 to 255 letters,
-- digits, hyphens and dots.
abbrev pub IsRequestable : SocksRequestAddress → Type 0
IsRequestable (ipv4 o) = length o ≡ 4
IsRequestable (ipv6 o) = length o ≡ 16
IsRequestable (domainname d) =
    (0 < length d) × (length d < 256) × All (λ c. is_domain_byte c ≡ true) d

pub read_u16-be_bytes :
    (p : ℕ) (rest : Bytes) → p < 256 ^ 2 → read_u16 (be_bytes 2 p ++ rest) ≡ ok (p, rest)
unfolding read_uint ◌>>=◌ pure
read_u16-be_bytes p rest h =
    rw (read_exact_fit 2 (be_bytes 2 p) rest (length-be_bytes 2 p), be_value-be_bytes 2 p h)
