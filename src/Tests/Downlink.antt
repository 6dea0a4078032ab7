-- ===== src/Tests/Downlink.antt =====
-- What the client reassembles, on a concrete session.
use mobile_injection.Base.{◌≡◌, refl, ◌∷◌, [], take}
use mobile_injection.Base.Run.{ok}
use mobile_injection.Types.{epollin}
use mobile_injection.System.{System, Received}
use mobile_injection.Tcp.State.{St}
use mobile_injection.Tcp.Socket.{check_tcp_socket, receive}
use mobile_injection.Util.Serial.{compare_u32}
use mobile_injection.Net.Header.{ip4_header}
use mobile_injection.Net.Decode.{tcp_header}
use mobile_injection.Tcp.Packet.{tcp_packet}
use mobile_injection.Tcp.Write.{write_data, write_tcp}
use mobile_injection.Tcp.Window.{get_send_window}
use mobile_injection.Tcp.Downlink.{client, chunk}
use mobile_injection.Tcp.Downlink.Follows.{Follows}
use mobile_injection.Tests.Data.{kernel, st}

-- A socket that gives two bytes, or fewer if fewer are asked for.
abbrev talking : System
talking = record kernel { recv = λ tr fd size. Received.bytes (take size (65 ∷ 66 ∷ [])) }

-- The state after one poll.
abbrev polled : St
unfolding check_tcp_socket
polled = elim (check_tcp_socket 3 talking epollin st) [ ok st' ↦ st' | _ ↦ st ]

-- Two reads give the client four bytes.
abbrev twice : St
unfolding receive
twice = receive talking epollin (receive talking epollin st)

client-twice : (client talking 4 3_000_000_000 twice.trace).stream ≡ 65 ∷ 66 ∷ 65 ∷ 66 ∷ []
unfolding client receive get_send_window compare_u32 write_data write_tcp tcp_packet ip4_header
    chunk tcp_header
client-twice = refl
