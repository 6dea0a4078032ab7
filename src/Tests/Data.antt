-- ===== src/Tests/Data.antt =====
-- A system that takes what it is given, sessions of each protocol, and packets.
use mobile_injection.Base.{ℕ, replicate, none, true, false, List, [], ◌∷◌, ◌++◌, pos, length}
use mobile_injection.Types.{
  Segment, TcpSession, TcpState, ConnectSent, Ng, NgSession, UdpSession, UdpState, IcmpSession,
  Arguments,
}
use mobile_injection.Held.{Held}
use mobile_injection.Ip.Handle.{Settings}
use mobile_injection.System.{System, Received, Sent, Waited}
use mobile_injection.Net.Decode.{TcpHeader, Addresses}
use mobile_injection.Tcp.State.{St}
use mobile_injection.Tcp.Packet.{Flags}

abbrev pub kernel : System
kernel = record {
  time = λ tr. 1000;
  ms = λ tr. 0;
  rand = λ tr. 77;
  write = λ tr packet. pos (length packet);
  send = λ tr fd bytes more. Sent.count (length bytes);
  send_to = λ tr fd bytes addr port. Sent.count (length bytes);
  recv = λ tr fd size. Received.recv_again;
  sndbuf = λ tr fd. pos 8192;
  outq = λ tr fd. pos 0;
  epoll_mod_fails = λ tr fd events. false;
  socket = λ tr version. pos 9;
  protect = λ tr fd. pos 0;
  get_flags = λ tr fd. pos 2;
  set_flags = λ tr fd. pos 0;
  inet_pton = λ text. 10 ∷ 0 ∷ 0 ∷ 1 ∷ [];
  inet_ntoa = λ addr. 49 ∷ [];
  connect_fails = λ tr fd addr port. false;
  datagram_socket = λ tr protocol version. pos 11;
  errno_again = λ tr. false;
  readable = λ tr fd. false;
  read_tun = λ tr size. Received.recv_again;
  leftover = λ tr n. replicate n 0;
  table = λ tr protocol version. none;
  wait = λ tr timeout. Waited.wait_again;
}

-- The same system with a send that reports EAGAIN.
abbrev pub busy : System
busy = record kernel { send = λ tr fd bytes more. Sent.send_again }

abbrev pub client : List ℕ
client = 10 ∷ 1 ∷ 10 ∷ 1 ∷ []

abbrev pub server : List ℕ
server = 93 ∷ 184 ∷ 216 ∷ 34 ∷ []

abbrev pub hello : Segment
hello = record { seq = 500; len = 3; sent = 1; psh = true; bytes = 104 ∷ 101 ∷ 121 ∷ [] }

abbrev pub world : Segment
world = record { seq = 503; len = 2; sent = 0; psh = true; bytes = 33 ∷ 10 ∷ [] }

abbrev pub session : TcpSession
session = record {
  uid = pos 1;
  time = 900;
  version = 4;
  mss = 1400;
  recv_scale = 2;
  send_scale = 2;
  recv_window = 4096;
  send_window = 8192;
  remote_seq = 501;
  local_seq = 3_000_000_000;
  remote_start = 499;
  local_start = 2_999_999_000;
  acked = 2_999_999_990;
  last_keep_alive = 0;
  sent = 1;
  received = 10;
  saddr = client;
  source = 40_000;
  daddr = server;
  dest = 8080;
  state = TcpState.established;
  forward = hello ∷ world ∷ [];
  hostname = [];
  connect_sent = ConnectSent.connect_established;
}

abbrev pub st : St
st = record { cur = session; socket = pos 7; events = 0; trace = [] }

-- The same session long after its time.
abbrev pub old : St
old = record st { cur = record session { time = 0; state = TcpState.listen } }

abbrev pub flags : Flags
flags = record { syn = true; ack = true; fin = false; rst = false }

abbrev pub ip : Addresses
ip = record { version = 4; saddr = client; daddr = server }

abbrev pub arguments : Arguments
arguments = record { fwd53 = false; proxy_ip = 49 ∷ []; proxy_port = 3128 }

abbrev pub sessions : List NgSession
sessions = NgSession.tcp (record { session = session; socket = pos 7; events = 0 }) ∷ []

-- A segment of the client with the FIN flag.
abbrev pub fin : TcpHeader
fin = record {
  source = 40_000;
  dest = 8080;
  seq = 505;
  ack_seq = 3_000_000_000;
  doff = 5;
  fin = true;
  syn = false;
  rst = false;
  psh = false;
  ack = true;
  urg = false;
  window = 100;
}

-- A SYN of another client port, with a maximum segment size and a window scale, in a larger buffer.
abbrev pub syn_packet : List ℕ
syn_packet =
    156 ∷ 65 ∷ 31 ∷ 144 ∷ 0 ∷ 0 ∷ 1 ∷ 0 ∷ 0 ∷ 0 ∷ 0 ∷ 0 ∷ 112 ∷ 2 ∷ 1 ∷ 0 ∷ 0 ∷ 0 ∷ 0 ∷ 0 ∷ 2 ∷ 4
    ∷ 5 ∷ 120 ∷ 3 ∷ 3 ∷ 7 ∷ 0 ∷ 0 ∷ 0 ∷ []

abbrev pub syn_header : TcpHeader
syn_header = record {
  source = 40_001;
  dest = 8080;
  seq = 256;
  ack_seq = 0;
  doff = 7;
  fin = false;
  syn = true;
  rst = false;
  psh = false;
  ack = false;
  urg = false;
  window = 256;
}

abbrev pub udp_session : UdpSession
udp_session = record {
  time = 990;
  uid = pos 1;
  version = 4;
  mss = 65_507;
  sent = 5;
  received = 0;
  saddr = client;
  source = 5353;
  daddr = server;
  dest = 53;
  state = UdpState.udp_active;
}

abbrev pub udp_ng : Ng UdpSession
udp_ng = record { session = udp_session; socket = pos 12; events = 9 }

abbrev pub udp_held : Held UdpSession
udp_held = record { cur = udp_session; socket = pos 12; events = 9; trace = [] }

abbrev pub icmp_ng : Ng IcmpSession
icmp_ng = record {
  session = record {
    time = 999;
    uid = pos 1;
    version = 4;
    saddr = client;
    daddr = server;
    id = 77;
    stop = false;
  };
  socket = pos 13;
  events = 9;
}

-- A session of each protocol.
abbrev pub mixed : List NgSession
mixed =
    NgSession.tcp (record { session = session; socket = pos 7; events = 0 })
    ∷ NgSession.udp udp_ng
    ∷ NgSession.icmp icmp_ng
    ∷ []

abbrev pub settings : Settings
settings = record { signed_char = true; check = true; fuel = 100; tun = pos 3 }

abbrev pub forwarding : Arguments
forwarding = record { fwd53 = true; proxy_ip = 49 ∷ []; proxy_port = 3128 }

-- A UDP packet of another port, behind its first byte.
abbrev pub ip4_packet : List ℕ
ip4_packet =
    0 ∷ 0 ∷ 32 ∷ 0 ∷ 0 ∷ 0 ∷ 0 ∷ 64 ∷ 17 ∷ 0 ∷ 0 ∷ 10 ∷ 1 ∷ 10 ∷ 1 ∷ 93 ∷ 184 ∷ 216 ∷ 34 ∷ 20 ∷ 234
    ∷ 0 ∷ 80 ∷ 0 ∷ 12 ∷ 0 ∷ 0 ∷ 1 ∷ 2 ∷ 3 ∷ 4 ∷ []

-- An IPv6 header with a hop-by-hop extension in front of a TCP segment.
abbrev pub hop_by_hop : List ℕ
hop_by_hop = 0x60 ∷ (replicate 39 0 ++ (6 ∷ 0 ∷ replicate 6 0))

-- A DHCP discover.
abbrev pub discover : List ℕ
discover = 1 ∷ 1 ∷ 6 ∷ (replicate 233 0 ++ (99 ∷ 130 ∷ 83 ∷ 99 ∷ []))
