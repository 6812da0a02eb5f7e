-- ===== src/Protocol/Socks.antt =====
-- dust-devil-core/src/socks5.rs: the destination of a socks5 request, and authentication methods.
pub mod Laws
use dust_devil.Base.{ℕ, Option, none, some, ◌==◌, if◌then◌else◌}
use dust_devil.Io.{Bytes, Text, text, ErrorKind, error_new}
use dust_devil.Io.Reader.{Reader, ◌>>=◌, pure, fail}
use dust_devil.Io.Writer.{Writer, ◌>>◌}
use dust_devil.Serialize.Numbers.{
  U8ReprEnum, write_enum, read_enum, write_u8, read_u8, write_u16, read_u16,
}
use dust_devil.Serialize.Texts.{write_small_string, read_small_string}
use dust_devil.Serialize.Addresses.{write_ip, read_ipv4, read_ipv6}

pub data SocksRequestAddress : Type 0 where
  ipv4 ipv6 : Bytes → SocksRequestAddress
  domainname : Text → SocksRequestAddress

unfoldable pub write_request_address : SocksRequestAddress → Writer
write_request_address (ipv4 a) = do write_u8 4; write_ip a
write_request_address (ipv6 a) = do write_u8 6; write_ip a
write_request_address (domainname d) = do write_u8 200; write_small_string d

unfoldable pub request_address_of : ℕ → Reader SocksRequestAddress
request_address_of t =
    if t == 4
    then (do a ← read_ipv4; pure (ipv4 a))
    else if t == 6
    then (do a ← read_ipv6; pure (ipv6 a))
    else if t == 200
    then (do d ← read_small_string; pure (domainname d))
    else fail (error_new ErrorKind.invalid_data (text "Invalid SocksRequestAddress type byte"))

unfoldable pub read_request_address : Reader SocksRequestAddress
unfolding request_address_of
read_request_address = do t ← read_u8; request_address_of t

pub record SocksRequest : Type 0 where
  pub destination : SocksRequestAddress
  pub port : ℕ

abbrev pub socks_request : SocksRequestAddress → ℕ → SocksRequest
socks_request destination port = record { destination = destination; port = port }

unfoldable pub write_socks_request : SocksRequest → Writer
write_socks_request r = do write_request_address r.destination; write_u16 r.port

unfoldable pub read_socks_request : Reader SocksRequest
read_socks_request = do
  destination ← read_request_address
  port ← read_u16
  pure (socks_request destination port)

pub data AuthMethod : Type 0 where
  no_auth username_and_password : AuthMethod

abbrev pub auth_method_repr : U8ReprEnum AuthMethod
auth_method_repr = record {
  from_u8 =
      λ v. if v == 0 then some no_auth else if v == 2 then some username_and_password else none;
  into_u8 = elim [ no_auth ↦ 0 | username_and_password ↦ 2 ];
}

unfoldable pub write_auth_method : AuthMethod → Writer
write_auth_method = write_enum auth_method_repr

unfoldable pub read_auth_method : Reader AuthMethod
read_auth_method = read_enum auth_method_repr (text "Invalid AuthMethod type byte")
