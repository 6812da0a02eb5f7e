-- ===== src/Serialize/Addresses.antt =====
-- IP and socket addresses of serialize.rs. An address is its octets; flow information and scope
-- identifier are numbers of 32 bits.
pub mod Laws
use dust_devil.Base.{
  true, ◌↔◌, str_eq_iff, arith, Bool, false, ◌&&◌, str_eq, ℕ, ◌^◌, ◌++◌, ◌<◌, ◌≡◌, List, length,
  ◌==◌, if◌then◌else◌,
}
use dust_devil.Io.{Bytes, text, show_u8, ErrorKind, error_new}
use dust_devil.Io.Reader.{Reader, ◌>>=◌, pure, read_exact, fail}
use dust_devil.Io.Writer.{Writer, ◌>>◌, write_all}
use dust_devil.Serialize.Numbers.{write_u8, read_u8, write_u16, read_u16, write_u32, read_u32}

pub record SocketAddrV4 : Type 0 where
  pub ip : Bytes
  pub port : ℕ

pub record SocketAddrV6 : Type 0 where
  pub ip : Bytes
  pub port : ℕ
  pub flowinfo : ℕ
  pub scope_id : ℕ

pub data SocketAddr : Type 0 where
  v4 : SocketAddrV4 → SocketAddr
  v6 : SocketAddrV6 → SocketAddr

-- `==`
unfoldable pub addr_eq : SocketAddr → SocketAddr → Bool
addr_eq (v4 a) (v4 b) = str_eq a.ip b.ip && (a.port == b.port)
addr_eq (v6 a) (v6 b) =
    str_eq a.ip b.ip
    && (a.port == b.port)
    && (a.flowinfo == b.flowinfo)
    && (a.scope_id == b.scope_id)
addr_eq (v4 a) (v6 b) = false
addr_eq (v6 a) (v4 b) = false

pub addr_eq_iff : (a b : SocketAddr) → (addr_eq a b ≡ true) ↔ (a ≡ b)
unfolding addr_eq
addr_eq_iff (v4 a) (v4 b) = ground (arith, str_eq_iff a.ip b.ip)
addr_eq_iff (v6 a) (v6 b) = ground (arith, str_eq_iff a.ip b.ip)
addr_eq_iff (v4 a) (v6 b) = ground arith
addr_eq_iff (v6 a) (v4 b) = ground arith

-- The sizes that the Rust types fix.
abbrev pub IsIpv4 : Bytes → Type 0
IsIpv4 ip = length ip ≡ 4

abbrev pub IsIpv6 : Bytes → Type 0
IsIpv6 ip = length ip ≡ 16

abbrev pub IsSocketAddr : SocketAddr → Type 0
IsSocketAddr (v4 a) = IsIpv4 a.ip × (a.port < 256 ^ 2)
IsSocketAddr (v6 a) =
    IsIpv6 a.ip × (a.port < 256 ^ 2) × (a.flowinfo < 256 ^ 4) × (a.scope_id < 256 ^ 4)

-- `Ipv4Addr` and `Ipv6Addr`.
unfoldable pub write_ip : Bytes → Writer
write_ip ip = write_all ip

unfoldable pub read_ipv4 : Reader Bytes
read_ipv4 = read_exact 4

unfoldable pub read_ipv6 : Reader Bytes
read_ipv6 = read_exact 16

unfoldable pub write_v4 : SocketAddrV4 → Writer
write_v4 a = do write_ip a.ip; write_u16 a.port

unfoldable pub read_v4 : Reader SocketAddrV4
read_v4 = do octets ← read_exact 4; port ← read_u16; pure (record { ip = octets; port = port })

unfoldable pub write_v6 : SocketAddrV6 → Writer
write_v6 a = do write_ip a.ip; write_u16 a.port; write_u32 a.flowinfo; write_u32 a.scope_id

unfoldable pub read_v6 : Reader SocketAddrV6
read_v6 = do
  octets ← read_exact 16
  port ← read_u16
  flowinfo ← read_u32
  scope_id ← read_u32
  pure (record { ip = octets; port = port; flowinfo = flowinfo; scope_id = scope_id })

unfoldable pub write_socket_addr : SocketAddr → Writer
write_socket_addr (v4 a) = do write_u8 4; write_v4 a
write_socket_addr (v6 a) = do write_u8 6; write_v6 a

-- The rest of an address whose type byte is given.
unfoldable pub socket_addr_of : ℕ → Reader SocketAddr
socket_addr_of v =
    if v == 4
    then (do a ← read_v4; pure (v4 a))
    else if v == 6
    then (do a ← read_v6; pure (v6 a))
    else fail (error_new ErrorKind.invalid_data (text "Invalid socket address type, " ++ show_u8 v))

unfoldable pub read_socket_addr : Reader SocketAddr
unfolding socket_addr_of
read_socket_addr = do addr_type ← read_u8; socket_addr_of addr_type
