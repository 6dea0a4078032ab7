-- ===== src/Session/Check/Expiry.antt =====
-- How a session over its time comes to its end: `check_session` of app/src/main/cpp/session.c at two
-- moments.
use mobile_injection.Base.{
  ℕ, ◌+◌, ◌<◌, ◌≡◌, refl, arith, ◌+ℤ◌, true, false, not, ◌⊎◌, inl, inr, pos, ltb_ℤ,
}
use mobile_injection.Types.{NgSession, TcpState, UdpSession, UdpState, IcmpSession, udp_state_eq}
use mobile_injection.System.{System, Trace}
use mobile_injection.Held.{Held, to_ng, of_ng}
use mobile_injection.Tcp.State.{St}
use mobile_injection.Tcp.Timeout.{expire, finish, reset_counters, is_closed, check_tcp_session}
use mobile_injection.Tcp.Timeout.Laws.{check_tcp_session-closes}
use mobile_injection.Udp.Timer.{get_udp_timeout, check_udp_session}
use mobile_injection.Icmp.Timer.{get_icmp_timeout, check_icmp_session}
use mobile_injection.Session.Count.{is_active}
use mobile_injection.Session.Check.{check_session, deadline}

-- The moment of the last packet, or of the end.
abbrev pub time_of : NgSession → ℕ
time_of (NgSession.icmp s) = s.session.time
time_of (NgSession.udp s) = s.session.time
time_of (NgSession.tcp s) = s.session.time

-- A session in TCP_CLOSE is deleted 300 seconds after its end.
closed_tcp-deleted :
    (sys : System) (n m : ℕ) (st : St)
    → st.cur.state ≡ TcpState.close
    → st.cur.time + 300 < sys.time st.trace
    → (check_tcp_session sys n m st).0 ≡ true
unfolding check_tcp_session expire finish reset_counters
closed_tcp-deleted sys n m st e h = ground arith

closed_udp-deleted :
    (sys : System) (n m : ℕ) (st : Held UdpSession)
    → st.cur.state ≡ UdpState.udp_closed
    → st.cur.time + 60 < sys.time st.trace
    → (check_udp_session sys n m st).0 ≡ true
unfolding check_udp_session
closed_udp-deleted sys n m st e h = ground arith

udp_active_lem :
    (state : UdpState) → udp_state_eq state UdpState.udp_active ≡ true → state ≡ UdpState.udp_active
udp_active_lem state h = ground arith

not_udp_active :
    (state : UdpState)
    → state ≡ UdpState.udp_closed
    → udp_state_eq state UdpState.udp_active ≡ false
not_udp_active state e = rw e refl

not_tcp_active : (state : TcpState) → state ≡ TcpState.close → not (is_closed state) ≡ false
not_tcp_active state e = rw e refl

check_udp_session-closes :
    (sys : System) (n m : ℕ) (st : Held UdpSession)
    → st.cur.state ≡ UdpState.udp_active
    → ltb_ℤ (pos st.cur.time +ℤ get_udp_timeout st.cur.dest n m) (pos (sys.time st.trace)) ≡ true
    → (check_udp_session sys n m st).1.cur.state ≡ UdpState.udp_closed
unfolding check_udp_session
check_udp_session-closes sys n m st e h = ground arith

check_icmp_session-deleted :
    (sys : System) (n m : ℕ) (st : Held IcmpSession)
    → ltb_ℤ (pos st.cur.time +ℤ get_icmp_timeout n m) (pos (sys.time st.trace)) ≡ true
    → (check_icmp_session sys n m st).0 ≡ true
unfolding check_icmp_session
check_icmp_session-deleted sys n m st h = ground arith

-- An active session over its time, whatever its protocol: its check deletes it or ends it, and a check more
-- than 300 seconds after its end, if no packet comes between, deletes it, however many sessions there
-- are by then.
pub check_session-ends :
    (sys : System) (n m : ℕ) (s : NgSession) (tr : Trace) (n' m' : ℕ) (tr' : Trace)
    → is_active s ≡ true
    → ltb_ℤ (deadline n m s) (pos (sys.time tr)) ≡ true
    → time_of (check_session sys n m s tr).1 + 300 < sys.time tr'
    → let r = check_session sys n m s tr in
      (r.0 ≡ true) ⊎ ((is_active r.1 ≡ false) × ((check_session sys n' m' r.1 tr').0 ≡ true))
unfolding check_session is_active deadline
check_session-ends sys n m (NgSession.icmp s) tr n' m' tr' active over later =
    inl (check_icmp_session-deleted sys n m (of_ng s tr) over)
check_session-ends sys n m (NgSession.udp s) tr n' m' tr' active over later =
    let st = (check_udp_session sys n m (of_ng s tr)).1 in
    let closed : st.cur.state ≡ UdpState.udp_closed =
      check_udp_session-closes sys n m (of_ng s tr) (udp_active_lem s.session.state active) over in
    inr (
      not_udp_active st.cur.state closed,
      closed_udp-deleted sys n' m' (of_ng (to_ng st) tr') closed (omega (arith, later)),
    )
check_session-ends sys n m (NgSession.tcp s) tr n' m' tr' active over later =
    let st = (check_tcp_session sys n m (of_ng s tr)).1 in
    let closed : st.cur.state ≡ TcpState.close =
      check_tcp_session-closes sys n m (of_ng s tr) (inr (ground (arith, active), over)) in
    inr (
      not_tcp_active st.cur.state closed,
      closed_tcp-deleted sys n' m' (of_ng (to_ng st) tr') closed later,
    )
