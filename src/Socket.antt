-- ===== src/Socket.antt =====
-- net/tools/quic/quic_socket_utils.cc: the control messages of a datagram, and the calls of
-- recvmsg, sendmsg and setsockopt. The system calls are functions that the caller supplies.
pub mod Laws
use quic_toy.Base.{
  ℕ, zero, suc, ◌+◌, ◌-◌, ◌*◌, ◌^◌, List, [], ◌∷◌, ◌++◌, Bool, false, ◌&&◌, ◌||◌, Option, none,
  some, if◌then◌else◌, nat_beq, ltb, take, drop, length, not,
}
use quic_toy.Base.Int.{ℤ, pos, negsuc, ltb_ℤ}
use quic_toy.Net.{IpAddress, IpEndPoint, WriteResult, status_ok, status_blocked, status_error}

-- The values of <sys/socket.h>, <netinet/in.h> and <errno.h> on Linux.
abbrev pub so_rxq_ovfl : ℕ
so_rxq_ovfl = 40

abbrev pub ip_pktinfo : ℕ
ip_pktinfo = 8

abbrev pub ipv6_pktinfo : ℕ
ipv6_pktinfo = 50

abbrev pub ipv6_recvpktinfo : ℕ
ipv6_recvpktinfo = 49

abbrev pub ipproto_ip : ℕ
ipproto_ip = 0

abbrev pub ipproto_ipv6 : ℕ
ipproto_ipv6 = 41

abbrev pub sol_socket : ℕ
sol_socket = 1

abbrev pub so_sndbuf : ℕ
so_sndbuf = 7

abbrev pub so_rcvbuf : ℕ
so_rcvbuf = 8

abbrev pub af_inet6 : ℕ
af_inet6 = 10

abbrev pub eagain : ℕ
eagain = 11

abbrev pub ewouldblock : ℕ
ewouldblock = 11

-- struct cmsghdr with the bytes behind it; struct msghdr with the list that CMSG_NXTHDR walks.
pub record Cmsghdr : Type 0 where
  pub cmsg_len : ℕ
  pub cmsg_level : ℕ
  pub cmsg_type : ℕ
  pub cmsg_data : List ℕ

pub record Msghdr : Type 0 where
  pub msg_name : IpEndPoint
  pub msg_iov : List ℕ
  pub msg_control : List Cmsghdr
  pub msg_controllen : ℕ

-- CMSG_LEN and CMSG_SPACE with a header of 16 bytes, aligned to 8.
abbrev pub cmsg_len_of : ℕ → ℕ
cmsg_len_of n = 16 + n

abbrev pub sizeof_in_pktinfo : ℕ
sizeof_in_pktinfo = 12

abbrev pub sizeof_in6_pktinfo : ℕ
sizeof_in6_pktinfo = 20

abbrev pub space_for_ip : ℕ
space_for_ip = if ltb 32 40 then 40 else 32

abbrev pub zeros : ℕ → List ℕ
zeros zero = []
zeros (suc n) = 0 ∷ zeros n

-- in_pktinfo is { ifindex; spec_dst; addr }, each of 4 bytes; in6_pktinfo is { addr[16]; ifindex }.
unfoldable pub get_address_from_cmsgs : List Cmsghdr → IpAddress
get_address_from_cmsgs [] = []
get_address_from_cmsgs (c ∷ cs) =
    let rest = get_address_from_cmsgs cs in
    if nat_beq c.cmsg_type ipv6_pktinfo
    then take 16 c.cmsg_data
    else if nat_beq c.cmsg_type ip_pktinfo
    then take 4 (drop 8 c.cmsg_data)
    else rest

unfoldable pub get_address_from_msghdr : Msghdr → IpAddress
unfolding get_address_from_cmsgs
get_address_from_msghdr h =
    if ltb 0 h.msg_controllen then get_address_from_cmsgs h.msg_control else []

-- The 4 bytes at CMSG_DATA, least first, as the bits of an `int`.
abbrev pub int_bits : List ℕ → ℕ
int_bits (a ∷ b ∷ c ∷ d ∷ rest) = a + 256 * b + 65536 * c + 16777216 * d
int_bits _ = 0

-- An `int` that is assigned to a 64-bit unsigned number keeps its sign in the upper bits.
abbrev pub widen_int : ℕ → ℕ
widen_int bits = if ltb bits (2 ^ 31) then bits else bits + (2 ^ 64 - 2 ^ 32)

unfoldable pub get_overflow_from_cmsgs : List Cmsghdr → Option ℕ
get_overflow_from_cmsgs [] = none
get_overflow_from_cmsgs (c ∷ cs) =
    if nat_beq c.cmsg_type so_rxq_ovfl
    then some (widen_int (int_bits c.cmsg_data))
    else get_overflow_from_cmsgs cs

-- The new value of `*dropped_packets`, or `none` where the function returns false.
unfoldable pub get_overflow_from_msghdr : Msghdr → Option ℕ
unfolding get_overflow_from_cmsgs
get_overflow_from_msghdr h =
    if ltb 0 h.msg_controllen then get_overflow_from_cmsgs h.msg_control else none

-- A call of setsockopt: descriptor, level, option, value. Its result is the call's.
abbrev pub SetSockOpt : Type 0
SetSockOpt = ℕ → ℕ → ℕ → ℕ → ℤ

abbrev pub is_zero : ℤ → Bool
is_zero (pos n) = nat_beq n 0
is_zero (negsuc n) = false

unfoldable pub set_get_address_info : SetSockOpt → ℕ → ℕ → ℤ
set_get_address_info setsockopt fd address_family =
    let rc = setsockopt fd ipproto_ip ip_pktinfo 1 in
    if is_zero rc && nat_beq address_family af_inet6
    then setsockopt fd ipproto_ipv6 ipv6_recvpktinfo 1
    else rc

unfoldable pub set_send_buffer_size : SetSockOpt → ℕ → ℕ → Bool
set_send_buffer_size setsockopt fd size = is_zero (setsockopt fd sol_socket so_sndbuf size)

unfoldable pub set_receive_buffer_size : SetSockOpt → ℕ → ℕ → Bool
set_receive_buffer_size setsockopt fd size = is_zero (setsockopt fd sol_socket so_rcvbuf size)

-- What recvmsg leaves: its result, errno, the peer's address by family, and the control messages.
pub data SockAddr : Type 0 where
  inet inet6 : IpEndPoint → SockAddr
  other_family : SockAddr

pub record Received : Type 0 where
  pub bytes_read : ℤ
  pub errno : ℕ
  pub raw_address : SockAddr
  pub header : Msghdr

-- `*dropped_packets` is `none` where the caller passes no counter.
pub record ReadResult : Type 0 where
  pub bytes_read : ℤ
  pub dropped_packets : Option ℕ
  pub self_address : IpAddress
  pub peer_address : IpEndPoint

abbrev pub update_dropped : Option ℕ → Option ℕ → Option ℕ
update_dropped none seen = none
update_dropped (some old) none = some old
update_dropped (some old) (some new) = some new

abbrev pub from_sock_addr : SockAddr → IpEndPoint → IpEndPoint
from_sock_addr (inet a) old = a
from_sock_addr (inet6 a) old = a
from_sock_addr other_family old = old

unfoldable pub read_packet : Received → Option ℕ → IpAddress → IpEndPoint → ReadResult
unfolding get_overflow_from_msghdr get_address_from_msghdr
read_packet r dropped self peer =
    if ltb_ℤ r.bytes_read (pos 0) && not (nat_beq r.errno 0)
    then record {
      bytes_read = negsuc 0;
      dropped_packets = dropped;
      self_address = self;
      peer_address = peer;
    }
    else record {
      bytes_read = r.bytes_read;
      dropped_packets = update_dropped dropped (get_overflow_from_msghdr r.header);
      self_address = get_address_from_msghdr r.header;
      peer_address = from_sock_addr r.raw_address peer;
    }

-- GetAddressFamily(self_address) == ADDRESS_FAMILY_IPV4 is a call of the QUIC library's, `is_ipv4`.
unfoldable pub set_ip_info_in_cmsg : (IpAddress → Bool) → IpAddress → Cmsghdr × ℕ
set_ip_info_in_cmsg is_ipv4 self =
    if is_ipv4 self
    then (
      record {
        cmsg_len = cmsg_len_of sizeof_in_pktinfo;
        cmsg_level = ipproto_ip;
        cmsg_type = ip_pktinfo;
        cmsg_data = zeros 4 ++ self ++ zeros (8 - length self);
      },
      sizeof_in_pktinfo,
    )
    else (
      record {
        cmsg_len = cmsg_len_of sizeof_in6_pktinfo;
        cmsg_level = ipproto_ipv6;
        cmsg_type = ipv6_pktinfo;
        cmsg_data = self ++ zeros (20 - length self);
      },
      sizeof_in6_pktinfo,
    )

-- The message that WritePacket hands to sendmsg.
unfoldable pub make_msghdr : (IpAddress → Bool) → List ℕ → IpAddress → IpEndPoint → Msghdr
unfolding set_ip_info_in_cmsg
make_msghdr is_ipv4 buffer [] peer = record {
  msg_name = peer;
  msg_iov = buffer;
  msg_control = [];
  msg_controllen = 0;
}
make_msghdr is_ipv4 buffer (b ∷ bs) peer =
    let cmsg = (set_ip_info_in_cmsg is_ipv4 (b ∷ bs)).0 in
    record {
      msg_name = peer;
      msg_iov = buffer;
      msg_control = cmsg ∷ [];
      msg_controllen = cmsg.cmsg_len;
    }

-- sendmsg's result and errno.
pub record SendResult : Type 0 where
  pub rc : ℤ
  pub errno : ℕ

unfoldable pub write_result : SendResult → WriteResult
write_result r = elim r.rc [
  | pos n ↦ record { status = status_ok; value = n }
  | negsuc n ↦ record {
    status =
        if nat_beq r.errno eagain || nat_beq r.errno ewouldblock
        then status_blocked
        else status_error;
    value = r.errno;
  }
]

unfoldable pub write_packet :
    (IpAddress → Bool)
    → (ℕ → Msghdr → SendResult)
    → ℕ
    → List ℕ
    → IpAddress
    → IpEndPoint
    → WriteResult
unfolding write_result make_msghdr
write_packet is_ipv4 sendmsg fd buffer self peer =
    write_result (sendmsg fd (make_msghdr is_ipv4 buffer self peer))
