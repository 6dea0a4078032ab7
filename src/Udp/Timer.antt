-- ===== src/Udp/Timer.antt =====
-- `get_udp_timeout` and `check_udp_session` of app/src/main/cpp/udp.c.
use mobile_injection.Base.{
  ℕ, ◌+◌, Bool, ◌&&◌, ◌||◌, ◌∷◌, ℤ, pos, ltb_ℤ, ◌+ℤ◌, ltb, ◌==◌, if◌then◌else◌,
}
use mobile_injection.Types.{UdpSession, UdpState, udp_state_eq}
use mobile_injection.System.{System, Event}
use mobile_injection.Held.{Held, close_socket}
use mobile_injection.Tcp.Timeout.{scale_timeout}

unfoldable pub get_udp_timeout : (dest sessions maxsessions : ℕ) → ℤ
unfolding scale_timeout
get_udp_timeout dest sessions maxsessions =
    scale_timeout (if dest == 53 then 15 else 300) sessions maxsessions

abbrev pub set_udp_state : UdpState → Held UdpSession → Held UdpSession
set_udp_state state st = record st { cur = record st.cur { state = state } }

-- s->udp.time = time(NULL).
abbrev pub stamp_udp : System → Held UdpSession → Held UdpSession
stamp_udp sys st = record st {
  cur = record st.cur { time = sys.time st.trace };
  trace = Event.asked_time ∷ st.trace;
}

-- "Check session timeout".
unfoldable pub expire_udp : (sessions maxsessions now : ℕ) → Held UdpSession → Held UdpSession
expire_udp sessions maxsessions now st =
    let timeout = get_udp_timeout st.cur.dest sessions maxsessions in
    if udp_state_eq st.cur.state UdpState.udp_active && ltb_ℤ (pos st.cur.time +ℤ timeout) (pos now)
    then set_udp_state UdpState.udp_finishing st
    else st

-- "Check finished sessions".
unfoldable pub finish_udp : System → Held UdpSession → Held UdpSession
finish_udp sys st =
    if udp_state_eq st.cur.state UdpState.udp_finishing
    then set_udp_state UdpState.udp_closed (stamp_udp sys (close_socket st))
    else st

-- The counters of a closed session are reset.
unfoldable pub reset_udp : Held UdpSession → Held UdpSession
reset_udp st =
    if udp_state_eq st.cur.state UdpState.udp_closed && (ltb 0 st.cur.sent || ltb 0 st.cur.received)
    then record st { cur = record st.cur { sent = 0; received = 0 } }
    else st

-- The result says whether the session is to be deleted.
unfoldable pub check_udp_session :
    System → (sessions maxsessions : ℕ) → Held UdpSession → Bool × Held UdpSession
unfolding expire_udp finish_udp reset_udp
check_udp_session sys sessions maxsessions st =
    let now = sys.time st.trace in
    let st1 = record st { trace = Event.asked_time ∷ st.trace } in
    let st2 = reset_udp (finish_udp sys (expire_udp sessions maxsessions now st1)) in
    (
      (udp_state_eq st2.cur.state UdpState.udp_closed
            || udp_state_eq st2.cur.state UdpState.udp_blocked)
          && ltb (st2.cur.time + 60) now,
      st2,
    )
