-- ===== src/Serialize/Addresses/Laws.antt =====
-- Round trips of addresses.
use dust_devil.Io.{Bytes}
use dust_devil.Io.Wire.{Wire, Wire-bind, Wire-map, Wire-bytes}
use dust_devil.Serialize.Numbers.Laws.{Wire-u8, Wire-uint}
use dust_devil.Serialize.Addresses.{
  SocketAddrV4, SocketAddrV6, SocketAddr, v4, v6, IsIpv4, IsIpv6, IsSocketAddr, write_ip, read_ipv4,
  read_ipv6, write_v4, read_v4, write_v6, read_v6, write_socket_addr, read_socket_addr,
}

pub Wire-ipv4 : (ip : Bytes) → IsIpv4 ip → Wire (write_ip ip) read_ipv4 ip
unfolding write_ip read_ipv4
Wire-ipv4 ip h = Wire-bytes 4 ip h

pub Wire-ipv6 : (ip : Bytes) → IsIpv6 ip → Wire (write_ip ip) read_ipv6 ip
unfolding write_ip read_ipv6
Wire-ipv6 ip h = Wire-bytes 16 ip h

Wire-v4 : (a : SocketAddrV4) → IsSocketAddr (v4 a) → Wire (write_v4 a) read_v4 a
unfolding write_v4 read_v4 write_ip
Wire-v4 a h = Wire-bind _ (Wire-bytes 4 a.ip h.0) (Wire-map _ (Wire-uint 2 a.port h.1))

Wire-v6 : (a : SocketAddrV6) → IsSocketAddr (v6 a) → Wire (write_v6 a) read_v6 a
unfolding write_v6 read_v6 write_ip
Wire-v6 a (hip, hport, hflow, hscope) = Wire-bind _ (Wire-bytes 16 a.ip hip) (
    Wire-bind _ (Wire-uint 2 a.port hport)
      (Wire-bind _ (Wire-uint 4 a.flowinfo hflow) (Wire-map _ (Wire-uint 4 a.scope_id hscope))))

-- A socket address of either family, its numbers in range, travels.
pub Wire-socket_addr :
    (a : SocketAddr) → IsSocketAddr a → Wire (write_socket_addr a) read_socket_addr a
unfolding write_socket_addr read_socket_addr
Wire-socket_addr (v4 a) h = Wire-bind _ (Wire-u8 4) (Wire-map v4 (Wire-v4 a h))
Wire-socket_addr (v6 a) h = Wire-bind _ (Wire-u8 6) (Wire-map v6 (Wire-v6 a h))
