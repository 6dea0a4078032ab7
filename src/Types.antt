-- ===== src/Types.antt =====
-- The structures and constants of app/src/main/cpp/tun2http.h. A field in network notation is
-- represented by the number that ntohs or ntohl gives for it, an address by its bytes, a jboolean or
-- a flag by a Bool, and a list of structures linked by `next` by a List.
use mobile_injection.Base.{ℕ, Bool, List, [], ◌∷◌, ℤ, ◌==◌, ◌&&◌, true, false}

-- TCP_ESTABLISHED ... of netinet/tcp.h, as far as `strstate` names them, and any other value.
pub data TcpState : Type 0 where
  established syn_sent syn_recv fin_wait1 fin_wait2 time_wait : TcpState
  close close_wait last_ack listen closing unknown : TcpState

-- TCP_CONNECT_NOT_SENT, TCP_CONNECT_SENT and TCP_CONNECT_ESTABLISHED.
pub data ConnectSent : Type 0 where
  connect_not_sent connect_is_sent connect_established : ConnectSent

pub data UdpState : Type 0 where
  udp_active udp_finishing udp_closed udp_blocked : UdpState

-- struct segment; `bytes` is what `data` points to.
pub record Segment : Type 0 where
  pub seq : ℕ
  pub len : ℕ
  pub sent : ℕ
  pub psh : Bool
  pub bytes : List ℕ

pub record IcmpSession : Type 0 where
  pub time : ℕ
  pub uid : ℤ
  pub version : ℕ
  pub saddr : List ℕ
  pub daddr : List ℕ
  pub id : ℕ
  pub stop : Bool

pub record UdpSession : Type 0 where
  pub time : ℕ
  pub uid : ℤ
  pub version : ℕ
  pub mss : ℕ
  pub sent : ℕ
  pub received : ℕ
  pub saddr : List ℕ
  pub source : ℕ
  pub daddr : List ℕ
  pub dest : ℕ
  pub state : UdpState

pub record TcpSession : Type 0 where
  pub uid : ℤ
  pub time : ℕ
  pub version : ℕ
  pub mss : ℕ
  pub recv_scale : ℕ
  pub send_scale : ℕ
  pub recv_window : ℕ
  pub send_window : ℕ
  pub remote_seq : ℕ
  pub local_seq : ℕ
  pub remote_start : ℕ
  pub local_start : ℕ
  pub acked : ℕ
  pub last_keep_alive : ℕ
  pub sent : ℕ
  pub received : ℕ
  pub saddr : List ℕ
  pub source : ℕ
  pub daddr : List ℕ
  pub dest : ℕ
  pub state : TcpState
  pub forward : List Segment
  pub hostname : List ℕ
  pub connect_sent : ConnectSent

-- The ng_session of a TCP, UDP or ICMP session: the member of the union that `protocol` selects, the
-- socket, and `ev.events`. IPPROTO_ICMP and IPPROTO_ICMPV6 are told apart by the session's version.
pub record Ng (A : Type 0) : Type 0 where
  pub session : A
  pub socket : ℤ
  pub events : ℕ

pub data NgSession : Type 0 where
  icmp : Ng IcmpSession → NgSession
  udp : Ng UdpSession → NgSession
  tcp : Ng TcpSession → NgSession

-- struct arguments, without the Java environment.
pub record Arguments : Type 0 where
  pub fwd53 : Bool
  pub proxy_ip : List ℕ
  pub proxy_port : ℕ

-- Equality tests on the states.
abbrev pub state_eq : TcpState → TcpState → Bool
state_eq TcpState.established TcpState.established = true
state_eq TcpState.syn_sent TcpState.syn_sent = true
state_eq TcpState.syn_recv TcpState.syn_recv = true
state_eq TcpState.fin_wait1 TcpState.fin_wait1 = true
state_eq TcpState.fin_wait2 TcpState.fin_wait2 = true
state_eq TcpState.time_wait TcpState.time_wait = true
state_eq TcpState.close TcpState.close = true
state_eq TcpState.close_wait TcpState.close_wait = true
state_eq TcpState.last_ack TcpState.last_ack = true
state_eq TcpState.listen TcpState.listen = true
state_eq TcpState.closing TcpState.closing = true
state_eq TcpState.unknown TcpState.unknown = true
state_eq _ _ = false

abbrev pub udp_state_eq : UdpState → UdpState → Bool
udp_state_eq UdpState.udp_active UdpState.udp_active = true
udp_state_eq UdpState.udp_finishing UdpState.udp_finishing = true
udp_state_eq UdpState.udp_closed UdpState.udp_closed = true
udp_state_eq UdpState.udp_blocked UdpState.udp_blocked = true
udp_state_eq _ _ = false

abbrev pub connect_eq : ConnectSent → ConnectSent → Bool
connect_eq ConnectSent.connect_not_sent ConnectSent.connect_not_sent = true
connect_eq ConnectSent.connect_is_sent ConnectSent.connect_is_sent = true
connect_eq ConnectSent.connect_established ConnectSent.connect_established = true
connect_eq _ _ = false

-- memcmp(a, b, n) == 0 on two addresses.
abbrev pub bytes_eq : List ℕ → List ℕ → Bool
bytes_eq [] [] = true
bytes_eq (a ∷ as1) (b ∷ bs) = a == b && bytes_eq as1 bs
bytes_eq _ _ = false

-- EPOLLIN, EPOLLOUT and EPOLLERR of sys/epoll.h.
abbrev pub epollin : ℕ
epollin = 1

abbrev pub epollout : ℕ
epollout = 4

abbrev pub epollerr : ℕ
epollerr = 8
