-- ===== src/Protocol/Socks/Laws.antt =====
-- Round trips of the types of socks5.rs.
use dust_devil.Base.{◌<◌, ◌^◌, ◌≡◌, refl}
use dust_devil.Io.Reader.{Reader, ◌>>=◌, pure}
use dust_devil.Io.Writer.{Writer, ◌>>◌}
use dust_devil.Io.Wire.{Wire-first, Wire-last, Wire, Wire-bind}
use dust_devil.Serialize.Numbers.{IsFaithful}
use dust_devil.Serialize.Numbers.Laws.{Wire-u8, Wire-enum}
use dust_devil.Serialize.Texts.Laws.{IsText}
use dust_devil.Serialize.Addresses.{IsIpv4, IsIpv6}
use dust_devil.Serialize.Rules.{wire_rules}
use dust_devil.Protocol.Socks.{
  SocksRequestAddress, ipv4, ipv6, domainname, write_request_address, read_request_address,
  SocksRequest, write_socks_request, read_socks_request, AuthMethod, no_auth, username_and_password,
  auth_method_repr, write_auth_method, read_auth_method,
}

abbrev pub IsRequestAddress : SocksRequestAddress → Type 0
IsRequestAddress (ipv4 a) = IsIpv4 a
IsRequestAddress (ipv6 a) = IsIpv6 a
IsRequestAddress (domainname d) = IsText 255 d

pub Wire-request_address :
    (a : SocksRequestAddress)
    → IsRequestAddress a
    → Wire (write_request_address a) read_request_address a
unfolding write_request_address read_request_address
Wire-request_address (ipv4 a) h = Wire-bind _ (Wire-u8 _) (search wire_rules)
Wire-request_address a h = Wire-bind _ (Wire-u8 _) (search wire_rules)

abbrev pub IsSocksRequest : SocksRequest → Type 0
IsSocksRequest r = IsRequestAddress r.destination × (r.port < 256 ^ 2)

pub Wire-socks_request :
    (r : SocksRequest) → IsSocksRequest r → Wire (write_socks_request r) read_socks_request r
unfolding write_socks_request read_socks_request
Wire-socks_request r h = search (wire_rules, Wire-request_address)

auth_method_repr-IsFaithful : IsFaithful auth_method_repr
auth_method_repr-IsFaithful no_auth = refl
auth_method_repr-IsFaithful username_and_password = refl

pub Wire-auth_method : (m : AuthMethod) → Wire (write_auth_method m) read_auth_method m
unfolding write_auth_method read_auth_method
Wire-auth_method m = Wire-enum auth_method_repr _ m (auth_method_repr-IsFaithful m)

module _ {B : Type 0} {w : Writer} {b : B} where
  pub auth_method_first :
      (f : AuthMethod → Reader B) (v : AuthMethod)
      → Wire w (f v) b
      → Wire (write_auth_method v >> w) (read_auth_method >>= f) b
  auth_method_first f v p = Wire-first Wire-auth_method f v p

module _ {B : Type 0} {b : B} where
  pub auth_method_last :
      (f : AuthMethod → Reader B) (v : AuthMethod)
      → f v ≡ pure b
      → Wire (write_auth_method v) (read_auth_method >>= f) b
  auth_method_last f v e = Wire-last Wire-auth_method f v e
