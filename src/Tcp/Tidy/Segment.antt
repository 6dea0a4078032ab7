-- ===== src/Tcp/Tidy/Segment.antt =====
-- The segment of a session that was found (app/src/main/cpp/tcp.c) and the sockets of the sessions that
-- are shut.
use mobile_injection.Base.{
  ℕ, ◌≡◌, refl, arith, true, false, ◌||◌, ◌&&◌, not, is_neg, List, [], ◌∷◌, inl, inr, Bool-cases,
  ◌==◌, if◌then◌else◌,
}
use mobile_injection.Types.{TcpState, state_eq, ConnectSent, connect_eq, TcpSession}
use mobile_injection.System.{System, Event, Sent}
use mobile_injection.Net.Decode.{TcpHeader}
use mobile_injection.Tcp.State.{St}
use mobile_injection.Tcp.Write.{write_flags, write_rst, write_ack}
use mobile_injection.Tcp.Queue.{queue_tcp}
use mobile_injection.Tcp.Queue.State.{queue_tcp-state}
use mobile_injection.Tcp.Timeout.{is_closed}
use mobile_injection.Tcp.Segment.{
  acknowledge_fin, receive_fin, receive_ack, receive_other_ack, receive_flags, receive_data,
  receive_segment,
}
use mobile_injection.Tcp.Connect.{
  send_connect, connect_proxy, connect_host, connect_request, set_hostname, has_name,
}
use mobile_injection.Tcp.Handle.{found_session}
use mobile_injection.Tcp.Tidy.{IsTidy, is_shut, write_rst-IsTidy}

acknowledge_fin-IsTidy :
    (sys : System) (state : TcpState) (st : St)
    → IsTidy st
    → (is_shut state ≡ true → is_neg st.socket ≡ true)
    → IsTidy (acknowledge_fin sys state st)
unfolding acknowledge_fin write_ack write_flags
acknowledge_fin-IsTidy sys state st h k = ground arith

receive_fin-IsTidy : (sys : System) (st : St) → IsTidy st → IsTidy (receive_fin sys st)
unfolding receive_fin
receive_fin-IsTidy sys st h = ground (
  arith,
  acknowledge_fin-IsTidy sys TcpState.close_wait st h,
  acknowledge_fin-IsTidy sys TcpState.close st h,
)

receive_ack-IsTidy : (ack : ℕ) (st : St) → IsTidy st → IsTidy (receive_ack ack st)
unfolding receive_ack
receive_ack-IsTidy ack st h = ground arith

receive_other_ack-IsTidy :
    (sys : System) (ack : ℕ) (st : St) → IsTidy st → IsTidy (receive_other_ack sys ack st)
unfolding receive_other_ack
receive_other_ack-IsTidy sys ack st h = ground (arith, write_rst-IsTidy sys st h)

receive_flags-IsTidy :
    (sys : System) (hdr : TcpHeader) (st : St) → IsTidy st → IsTidy (receive_flags sys hdr st)
unfolding receive_flags
receive_flags-IsTidy sys hdr st h = ground (
  arith,
  receive_fin-IsTidy sys st h,
  receive_ack-IsTidy hdr.ack_seq st h,
  receive_other_ack-IsTidy sys hdr.ack_seq st h,
)

receive_data-IsTidy :
    (sys : System) (hdr : TcpHeader) (bytes : List ℕ) (st : St)
    → IsTidy st
    → IsTidy (receive_data sys hdr bytes st)
unfolding receive_data
receive_data-IsTidy sys hdr [] st h = receive_flags-IsTidy sys hdr st h
receive_data-IsTidy sys hdr (b ∷ bs) st h =
    let cur1 = queue_tcp hdr.seq hdr.psh (b ∷ bs) st.cur in
    let same = queue_tcp-state hdr.seq hdr.psh (b ∷ bs) st.cur in
    let queued = receive_flags-IsTidy sys hdr (record st { cur = cur1 }) (rw same h) in
    elim (Bool-cases (is_neg st.socket || state_eq st.cur.state TcpState.close_wait)) [
      | inl late ↦ rw late (write_rst-IsTidy sys st h)
      | inr open_both ↦ rw open_both queued
    ]

receive_segment-IsTidy :
    (sys : System) (hdr : TcpHeader) (bytes : List ℕ) (st : St)
    → IsTidy st
    → IsTidy (receive_segment sys hdr bytes st)
unfolding receive_segment
receive_segment-IsTidy sys hdr bytes st h = elim (Bool-cases (is_closed st.cur.state)) [
  | inl closed ↦ rw closed (write_rst-IsTidy sys st h)
  | inr alive ↦ rw alive (receive_data-IsTidy sys hdr bytes _ h)
]

send_connect-IsTidy : (sys : System) (st : St) → IsTidy st → IsTidy (send_connect sys st)
unfolding send_connect
send_connect-IsTidy sys st h =
    sent (sys.send st.trace st.socket (connect_request st.cur.hostname) false)
  where
    st1 : St
    st1 = record st {
      trace = Event.sent st.socket (connect_request st.cur.hostname) false ∷ st.trace;
    }

    sent :
        (r : Sent)
        → IsTidy (elim r [
          | Sent.count n ↦ record st1 {
            cur = record st1.cur {
              connect_sent = ConnectSent.connect_is_sent;
              state = TcpState.listen;
            };
          }
          | _ ↦ write_rst sys st1
        ])
    sent (Sent.count n) = λ e. cc
    sent Sent.send_again = write_rst-IsTidy sys st1 h
    sent Sent.send_failed = write_rst-IsTidy sys st1 h

set_hostname-state : (host : List ℕ) (cur : TcpSession) → (set_hostname host cur).state ≡ cur.state
unfolding set_hostname
set_hostname-state [] cur = refl
set_hostname-state (c ∷ rest) cur = refl

connect_proxy-IsTidy :
    (sys : System) (hostname : List ℕ) (st : St)
    → IsTidy st
    → IsTidy (connect_proxy sys hostname st)
unfolding connect_proxy
connect_proxy-IsTidy sys hostname st h =
    let host = connect_host sys hostname st.cur in
    let st1 : St = record st { cur = set_hostname host st.cur } in
    let named : IsTidy st1 = rw (set_hostname-state host st.cur) h in
    elim (Bool-cases
      (connect_eq st1.cur.connect_sent ConnectSent.connect_not_sent && has_name host)) [
        | inl sends ↦ rw sends (send_connect-IsTidy sys st1 named)
        | inr waits ↦ rw waits named
      ]

pub found_session-IsTidy :
    (sys : System) (hdr : TcpHeader) (hostname bytes : List ℕ) (st : St)
    → IsTidy st
    → IsTidy (found_session sys hdr hostname bytes st)
unfolding found_session
found_session-IsTidy sys hdr hostname bytes st h =
    let st1 : St = if hdr.dest == 443 then connect_proxy sys hostname st else st in
    let tidy1 : IsTidy st1 = elim (Bool-cases (hdr.dest == 443)) [
      | inl e ↦ rw e (connect_proxy-IsTidy sys hostname st h)
      | inr e ↦ rw e h
    ] in
    let queued : IsTidy (record st1 { cur = queue_tcp hdr.seq hdr.psh bytes st1.cur }) =
      rw (queue_tcp-state hdr.seq hdr.psh bytes st1.cur) tidy1 in
    elim (Bool-cases
      (hdr.dest == 443 && not (connect_eq st1.cur.connect_sent ConnectSent.connect_established))) [
        | inl e ↦ rw e queued
        | inr e ↦ rw e (receive_segment-IsTidy sys hdr bytes st1 tidy1)
      ]
