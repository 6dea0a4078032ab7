-- ===== src/Udp/Tidy.antt =====
-- The sockets of UDP sessions (app/src/main/cpp/udp.c): which states go with a closed one.
use mobile_injection.Base.{
  ℕ, ◌≡◌, arith, Bool, true, false, ◌||◌, ◌==◌, is_neg, List, [], ◌∷◌, ◌⊎◌, length,
}
use mobile_injection.Base.Run.{EachOk, EachOk->>=, EachOk-bind, EachOk-if, read, read_bytes}
use mobile_injection.Types.{UdpSession, UdpState, udp_state_eq, epollin, epollerr}
use mobile_injection.System.{System, Event, Received, Sent}
use mobile_injection.Held.{Held, has_event}
use mobile_injection.Dns.{parse_dns_response}
use mobile_injection.Net.Decode.{UdpHeader}
use mobile_injection.Udp.Timer.{expire_udp, finish_udp, reset_udp, check_udp_session, stamp_udp}
use mobile_injection.Udp.Socket.{receive_datagram, receive_udp, check_udp_socket}
use mobile_injection.Udp.Dhcp.{is_dhcp, dhcp_answer, check_dhcp}
use mobile_injection.Udp.Handle.{check_dns, sent_udp, send_udp, forward_udp}

-- The states of a session that has no socket.
abbrev pub is_over : UdpState → Bool
is_over state = udp_state_eq state UdpState.udp_closed || udp_state_eq state UdpState.udp_blocked

abbrev pub IsTidyUdp : Held UdpSession → Type 0
IsTidyUdp st = is_over st.cur.state ≡ true → is_neg st.socket ≡ true

expire_udp-IsTidy :
    (sessions maxsessions now : ℕ) (st : Held UdpSession)
    → IsTidyUdp st
    → IsTidyUdp (expire_udp sessions maxsessions now st)
unfolding expire_udp
expire_udp-IsTidy sessions maxsessions now st h = ground arith

finish_udp-IsTidy :
    (sys : System) (st : Held UdpSession) → IsTidyUdp st → IsTidyUdp (finish_udp sys st)
unfolding finish_udp
finish_udp-IsTidy sys st h = ground arith

reset_udp-IsTidy : (st : Held UdpSession) → IsTidyUdp st → IsTidyUdp (reset_udp st)
unfolding reset_udp
reset_udp-IsTidy st h = ground arith

-- The check keeps the invariant, and a session to be deleted holds no socket.
pub check_udp_session-IsTidy :
    (sys : System) (sessions maxsessions : ℕ) (st : Held UdpSession)
    → IsTidyUdp st
    → let r = check_udp_session sys sessions maxsessions st in
      IsTidyUdp r.1 × ((r.0 ≡ false) ⊎ (is_neg r.1.socket ≡ true))
unfolding check_udp_session
check_udp_session-IsTidy sys sessions maxsessions st h =
    let now = sys.time st.trace in
    let st1 : Held UdpSession = record st { trace = Event.asked_time ∷ st.trace } in
    let st2 = expire_udp sessions maxsessions now st1 in
    let st3 = finish_udp sys st2 in
    let tidy : IsTidyUdp (reset_udp st3) =
      reset_udp-IsTidy st3
        (finish_udp-IsTidy sys st2 (expire_udp-IsTidy sessions maxsessions now st1 h)) in
    (tidy, ground arith)

receive_datagram-IsTidy :
    (fuel : ℕ) (sys : System) (bytes : List ℕ) (st : Held UdpSession)
    → IsTidyUdp st
    → EachOk IsTidyUdp (receive_datagram fuel sys bytes st)
unfolding receive_datagram
receive_datagram-IsTidy fuel sys bytes st h =
    EachOk-if IsTidyUdp (st.cur.dest == 53) _ _
      (EachOk->>= IsTidyUdp (parse_dns_response fuel _ (length bytes)) _ (λ u. ground arith))
      (ground arith)

receive_udp-IsTidy :
    (fuel : ℕ) (sys : System) (r : Received) (st : Held UdpSession)
    → IsTidyUdp st
    → EachOk IsTidyUdp (receive_udp fuel sys r st)
unfolding receive_udp
receive_udp-IsTidy fuel sys (Received.bytes []) st h = λ e. cc
receive_udp-IsTidy fuel sys (Received.bytes (b ∷ bs)) st h =
    receive_datagram-IsTidy fuel sys (b ∷ bs) st h
receive_udp-IsTidy fuel sys Received.recv_again st h = h
receive_udp-IsTidy fuel sys Received.recv_failed st h = λ e. cc

pub check_udp_socket-IsTidy :
    (fuel : ℕ) (sys : System) (events : ℕ) (st : Held UdpSession)
    → IsTidyUdp st
    → EachOk IsTidyUdp (check_udp_socket fuel sys events st)
unfolding check_udp_socket
check_udp_socket-IsTidy fuel sys events st h =
    let st1 = stamp_udp sys st in
    let st2 : Held UdpSession = record st1 {
      trace = Event.received st1.socket st1.cur.mss ∷ st1.trace;
    } in
    EachOk-if IsTidyUdp (has_event events epollerr) _ _ (λ e. cc)
      (EachOk-if IsTidyUdp (has_event events epollin) _ _
        (receive_udp-IsTidy fuel sys (sys.recv st1.trace st1.socket st1.cur.mss) st2 h) h)

check_dhcp-IsTidy :
    (sys : System) (memory : List ℕ) (datalen : ℕ) (st : Held UdpSession)
    → IsTidyUdp st
    → EachOk (λ (r : Bool × Held UdpSession). IsTidyUdp r.1) (check_dhcp sys memory datalen st)
unfolding check_dhcp
check_dhcp-IsTidy sys memory datalen st h = EachOk->>= _ (is_dhcp memory datalen) _ (λ dhcp.
    EachOk-if _ dhcp _ _
      (EachOk->>= _ (read memory 0) _ (λ opcode.
        EachOk-if _ (opcode == 1) _ _ (EachOk->>= _ (dhcp_answer sys memory) _ (λ response. h)) h))
      h)

sent_udp-IsTidy :
    (sys : System) (datalen : ℕ) (r : Sent) (st : Held UdpSession)
    → IsTidyUdp st
    → IsTidyUdp (sent_udp sys datalen r st).1
unfolding sent_udp
sent_udp-IsTidy sys datalen (Sent.count n) st h = ground arith
sent_udp-IsTidy sys datalen Sent.send_again st h = h
sent_udp-IsTidy sys datalen Sent.send_failed st h = λ e. cc

pub forward_udp-IsTidy :
    (fuel : ℕ) (sys : System) (hdr : UdpHeader) (mem : List ℕ) (datalen : ℕ) (st : Held UdpSession)
    → IsTidyUdp st
    → EachOk
        (λ (r : Bool × Held UdpSession). IsTidyUdp r.1)
        (forward_udp fuel sys hdr mem datalen st)
unfolding forward_udp send_udp
forward_udp-IsTidy fuel sys hdr mem datalen st h =
    EachOk->>= _ (check_dns fuel hdr.dest mem datalen) _ (λ nothing.
      EachOk-bind (λ (r : Bool × Held UdpSession). IsTidyUdp r.1) _ _ _
        (EachOk-if _ (hdr.source == 68 || hdr.dest == 67) _ _
          (check_dhcp-IsTidy sys mem datalen st h) h)
        (λ r k.
          EachOk-if _ r.0 _ _ k
            (EachOk->>= _ (read_bytes mem datalen) _ (λ bytes. sent sys r.1 bytes k))))
  where
    sent :
        (sys : System) (st : Held UdpSession) (bytes : List ℕ)
        → IsTidyUdp st
        → IsTidyUdp (send_udp sys bytes st).1
    sent sys st bytes h =
        let st1 = stamp_udp sys st in
        sent_udp-IsTidy sys (length bytes)
          (sys.send_to st1.trace st1.socket bytes st1.cur.daddr st1.cur.dest)
          (record st1 {
            trace = Event.sent_to st1.socket bytes st1.cur.daddr st1.cur.dest ∷ st1.trace;
          })
          h
