-- ===== src/Tcp/Timeout.antt =====
-- `get_tcp_timeout` and `check_tcp_session` of app/src/main/cpp/tcp.c.
pub mod Laws
use mobile_injection.Base.{
  ℕ, ◌+◌, ◌*◌, ◌/◌, Bool, not, ◌&&◌, ◌||◌, ◌∷◌, ℤ, pos, is_neg, ltb_ℤ, ◌+ℤ◌, ◌-ℤ◌, ◌*ℤ◌, ◌/ℤ◌, ltb,
  if◌then◌else◌,
}
use mobile_injection.Types.{TcpState, state_eq}
use mobile_injection.System.{System, Event}
use mobile_injection.Held.{close_socket}
use mobile_injection.Tcp.State.{St, stamp}
use mobile_injection.Tcp.Write.{write_rst}

-- The timeout in seconds shrinks with the share of the sessions in use; it is negative when there are
-- more than `maxsessions`. (C traps for maxsessions = 0; here the quotient is 0 then.)
unfoldable pub scale_timeout : (timeout sessions maxsessions : ℕ) → ℤ
scale_timeout timeout sessions maxsessions =
    pos timeout *ℤ (pos 100 -ℤ pos (sessions * 100 / maxsessions)) /ℤ 100

unfoldable pub get_tcp_timeout : TcpState → (sessions maxsessions : ℕ) → ℤ
unfolding scale_timeout
get_tcp_timeout state sessions maxsessions =
    scale_timeout
      (if state_eq state TcpState.listen || state_eq state TcpState.syn_recv
        then 30
        else if state_eq state TcpState.established
        then 3600
        else 30)
      sessions maxsessions

-- state is TCP_CLOSING or TCP_CLOSE.
abbrev pub is_closed : TcpState → Bool
is_closed state = state_eq state TcpState.closing || state_eq state TcpState.close

-- "Check session timeout".
unfoldable pub expire : System → (sessions maxsessions now : ℕ) → St → St
expire sys sessions maxsessions now st =
    let timeout = get_tcp_timeout st.cur.state sessions maxsessions in
    if not (is_closed st.cur.state) && ltb_ℤ (pos st.cur.time +ℤ timeout) (pos now)
    then (if state_eq st.cur.state TcpState.listen
        then record st { cur = record st.cur { state = TcpState.closing } }
        else write_rst sys st)
    else st

-- "Check closing sessions".
unfoldable pub finish : System → St → St
finish sys st =
    let st1 = if is_neg st.socket then st else close_socket st in
    let st2 = stamp sys st1 in
    if state_eq st.cur.state TcpState.closing
    then record st2 { cur = record st2.cur { state = TcpState.close } }
    else st

-- The counters of a session that is over are reset.
unfoldable pub reset_counters : St → St
reset_counters st =
    if is_closed st.cur.state && (ltb 0 st.cur.sent || ltb 0 st.cur.received)
    then record st { cur = record st.cur { sent = 0; received = 0 } }
    else st

-- The result says whether the session is to be deleted.
unfoldable pub check_tcp_session : System → (sessions maxsessions : ℕ) → St → Bool × St
check_tcp_session sys sessions maxsessions st =
    let now = sys.time st.trace in
    let st1 = record st { trace = Event.asked_time ∷ st.trace } in
    let st2 = reset_counters (finish sys (expire sys sessions maxsessions now st1)) in
    (state_eq st2.cur.state TcpState.close && ltb (st2.cur.time + 300) now, st2)
