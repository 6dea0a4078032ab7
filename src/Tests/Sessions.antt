-- ===== src/Tests/Sessions.antt =====
-- The handlers on concrete sessions.
use mobile_injection.Base.{
  ℕ, ◌≡◌, refl, ap, arith, true, ◌⊎◌, inr, List, [], ◌∷◌, pos, take, length, length-take,
}
use mobile_injection.Base.Run.{ok}
use mobile_injection.Types.{NgSession, TcpState, ConnectSent, epollin}
use mobile_injection.System.{System, Trace, Received, RecvBounded}
use mobile_injection.Net.Decode.{tcp_header}
use mobile_injection.Tcp.Segment.Moves.{Moves}
use mobile_injection.Tcp.Handle.Moves.{found_session-Moves}
use mobile_injection.Tcp.Options.Laws.{TcpOption, encode_options, encode_option}
use mobile_injection.Tcp.Handle.{handle_tcp, find_tcp, found_session}
use mobile_injection.Tcp.Handle.Lookup.{Answers, find_tcp_lem}
use mobile_injection.Tcp.Handle.Returns.{handle_tcp-ends}
use mobile_injection.Util.Serial.{compare_u32}
use mobile_injection.Tcp.Socket.{receive}
use mobile_injection.Tcp.Window.Sent.{IsBehind, IsInWindow, receive-IsInWindow}
use mobile_injection.Tcp.Open.{Allowed, open_tcp_socket}
use mobile_injection.Tcp.Open.Protected.{IsProtected, open_tcp_socket-IsProtected}
use mobile_injection.Tests.Data.{kernel, arguments, ip, sessions, st, fin, syn_packet, syn_header}

abbrev options : List TcpOption
options = TcpOption.maximum_segment_size 5 120 ∷ TcpOption.window_scale 7 ∷ []

handle_tcp-ends_example :
    (r : List NgSession × Trace) × (handle_tcp true 3 kernel arguments syn_packet 28 0 ip
        (pos 1)
        sessions
        []
      ≡ ok r)
unfolding tcp_header encode_options encode_option
handle_tcp-ends_example =
    handle_tcp-ends true kernel arguments syn_packet 28 0 ip (pos 1) sessions [] syn_header options
      (omega arith)
      (record {
        header = refl;
        inside = omega arith;
        small = omega arith;
        begins = omega arith;
        others = (tt, (tt, tt));
        b = 0;
        c = 0;
        tail = 0 ∷ [];
        options = refl;
        pad = 1;
        padded = inr refl;
        option_bytes = refl;
      })

found_session-Moves_example :
    Moves TcpState.established (found_session kernel fin [] (1 ∷ []) st).cur.state
    ⊎ ((fin.dest ≡ 443)
        × ((st.cur.connect_sent ≡ ConnectSent.connect_not_sent)
            × ((found_session kernel fin [] (1 ∷ []) st).cur.state ≡ TcpState.listen)))
found_session-Moves_example = found_session-Moves kernel fin [] (1 ∷ []) st

find_tcp_example : Answers ip fin sessions (find_tcp ip fin sessions)
find_tcp_example = find_tcp_lem ip fin sessions

-- A system in which the socket gives two bytes, or fewer if fewer are asked for.
abbrev talking : System
talking = record kernel { recv = λ tr fd size. Received.bytes (take size (65 ∷ 66 ∷ [])) }

bytes-injective : (xs ys : List ℕ) → Received.bytes xs ≡ Received.bytes ys → xs ≡ ys
bytes-injective xs ys e = cc

talking-RecvBounded : RecvBounded talking
talking-RecvBounded tr fd size bs e = omega (
  arith,
  ap length (bytes-injective bs (take size (65 ∷ 66 ∷ [])) e),
  length-take {A = ℕ} size (65 ∷ 66 ∷ []),
)

st-IsBehind : IsBehind st.cur
unfolding compare_u32
st-IsBehind = refl

receive-IsInWindow_example : IsInWindow (receive talking epollin st)
receive-IsInWindow_example =
    receive-IsInWindow talking talking-RecvBounded epollin st st-IsBehind (omega arith)

abbrev redirect : Allowed
redirect = record { raddr = 49 ∷ []; rport = 3128 }

open_tcp_socket-IsProtected_example : IsProtected kernel (open_tcp_socket kernel redirect st.cur [])
open_tcp_socket-IsProtected_example = open_tcp_socket-IsProtected kernel redirect st.cur [] tt
