-- ===== src/Udp/Socket.antt =====
-- `check_udp_socket` of app/src/main/cpp/udp.c: what a session does when its socket is ready.
use mobile_injection.Base.{
  ℕ, ◌+◌, ◌-◌, ◌^◌, ◌++◌, ◌%◌, List, [], ◌∷◌, is_neg, ◌==◌, length, if◌then◌else◌,
}
use mobile_injection.Base.Run.{◌>>=◌, Run, ok}
use mobile_injection.Types.{UdpSession, UdpState, epollin, epollerr}
use mobile_injection.System.{System, Event, Received}
use mobile_injection.Held.{Held, has_event}
use mobile_injection.Dns.{parse_dns_response}
use mobile_injection.Udp.Timer.{set_udp_state, stamp_udp}
use mobile_injection.Udp.Packet.{write_udp}

-- "Socket read data": the bytes go to the client. A session to port 53 ends with its first answer.
unfoldable pub receive_datagram :
    (fuel : ℕ) → System → List ℕ → Held UdpSession → Run (Held UdpSession)
receive_datagram fuel sys bytes st =
    let cur = record st.cur { received = (st.cur.received + length bytes) % 2 ^ 64 } in
    let (res, tr) = write_udp sys cur bytes st.trace in
    let st1 = record st { cur = cur; trace = tr } in
    let st2 =
      if is_neg res
      then set_udp_state UdpState.udp_finishing st1
      else if st.cur.dest == 53
      then set_udp_state UdpState.udp_finishing st1
      else st1 in
    let buffer = bytes ++ sys.leftover st.trace (st.cur.mss - length bytes) in
    let parsed = (do nothing ← parse_dns_response fuel buffer (length bytes); ok st2) in
    if st.cur.dest == 53 then parsed else ok st2

-- What recv returns.
unfoldable pub receive_udp :
    (fuel : ℕ) → System → Received → Held UdpSession → Run (Held UdpSession)
unfolding receive_datagram
receive_udp fuel sys (Received.bytes []) st = ok (set_udp_state UdpState.udp_finishing st)
receive_udp fuel sys (Received.bytes (b ∷ bs)) st = receive_datagram fuel sys (b ∷ bs) st
receive_udp fuel sys Received.recv_again st = ok st
receive_udp fuel sys Received.recv_failed st = ok (set_udp_state UdpState.udp_finishing st)

-- `fuel` bounds the rounds of the walks through DNS names.
unfoldable pub check_udp_socket :
    (fuel : ℕ) → System → (events : ℕ) → Held UdpSession → Run (Held UdpSession)
unfolding receive_udp
check_udp_socket fuel sys events st =
    let st1 = stamp_udp sys st in
    let failed = record st1 { trace = Event.asked_error st1.socket ∷ st1.trace } in
    let st2 = record st1 { trace = Event.received st1.socket st1.cur.mss ∷ st1.trace } in
    let received = receive_udp fuel sys (sys.recv st1.trace st1.socket st1.cur.mss) st2 in
    if has_event events epollerr
    then ok (set_udp_state UdpState.udp_finishing failed)
    else if has_event events epollin
    then received
    else ok st
