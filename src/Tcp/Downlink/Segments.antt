-- ===== src/Tcp/Downlink/Segments.antt =====
-- The segments of the client ("Session found" of `handle_tcp`, app/src/main/cpp/tcp.c) between the polls of
-- the socket.
use mobile_injection.Base.{ℕ, ◌≡◌, false, List}
use mobile_injection.Base.Run.{ok}
use mobile_injection.Types.{TcpState, Segment, state_eq}
use mobile_injection.System.{System}
use mobile_injection.Net.Decode.{TcpHeader}
use mobile_injection.Tcp.State.{St}
use mobile_injection.Tcp.Socket.{check_tcp_socket}
use mobile_injection.Tcp.Segment.{receive_segment}
use mobile_injection.Tcp.Downlink.Follows.{Follows}

module _ (sys : System) (version isn : ℕ) where
  abbrev P : St → Type 0
  P st = Follows sys version isn st

-- The polls of the socket of a session past TCP_LISTEN, and the segments of its client, in any order.
pub data Exchange (sys : System) : St → St → Type 0 where
  start : {st : St} → Exchange sys st st
  poll :
      {st st1 st2 : St} (rounds events : ℕ)
      → Exchange sys st st1
      → state_eq st1.cur.state TcpState.listen ≡ false
      → check_tcp_socket rounds sys events st1 ≡ ok st2
      → Exchange sys st st2
  segment :
      {st st1 : St} (hdr : TcpHeader) (bytes : List ℕ)
      → Exchange sys st st1
      → Exchange sys st (receive_segment sys hdr bytes st1)
