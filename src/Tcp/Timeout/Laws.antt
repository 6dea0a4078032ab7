-- ===== src/Tcp/Timeout/Laws.antt =====
-- The life of a session between packets: `check_tcp_session` of app/src/main/cpp/tcp.c.
use mobile_injection.Base.{ℕ, ◌≡◌, arith, Bool, true, false, ◌⊎◌, ◌∷◌, pos, ltb_ℤ, ◌+ℤ◌}
use mobile_injection.Types.{TcpState}
use mobile_injection.System.{System, Event}
use mobile_injection.Tcp.State.{St}
use mobile_injection.Tcp.Write.{write_rst}
use mobile_injection.Tcp.Timeout.{
  is_closed, get_tcp_timeout, expire, finish, reset_counters, check_tcp_session,
}

-- A session is over its time.
abbrev pub is_expired : (sessions maxsessions now : ℕ) → St → Bool
is_expired sessions maxsessions now st =
    ltb_ℤ (pos st.cur.time +ℤ get_tcp_timeout st.cur.state sessions maxsessions) (pos now)

-- A session that is open and not over its time is left as it is by `check_tcp_session`, which only asks
-- for the time, and is not deleted.
pub check_tcp_session-alive :
    (sys : System) (sessions maxsessions : ℕ) (st : St)
    → is_closed st.cur.state ≡ false
    → is_expired sessions maxsessions (sys.time st.trace) st ≡ false
    → (check_tcp_session sys sessions maxsessions st).1
        ≡ record st { trace = Event.asked_time ∷ st.trace }
      × ((check_tcp_session sys sessions maxsessions st).0 ≡ false)
unfolding check_tcp_session expire finish reset_counters
check_tcp_session-alive sys sessions maxsessions st alive young = ground arith

-- A session that is in TCP_CLOSING, or is open and over its time, is in TCP_CLOSE after
-- `check_tcp_session`.
pub check_tcp_session-closes :
    (sys : System) (sessions maxsessions : ℕ) (st : St)
    → (st.cur.state ≡ TcpState.closing)
      ⊎ ((is_closed st.cur.state ≡ false)
          × (is_expired sessions maxsessions (sys.time st.trace) st ≡ true))
    → (check_tcp_session sys sessions maxsessions st).1.cur.state ≡ TcpState.close
unfolding check_tcp_session expire finish reset_counters write_rst
check_tcp_session-closes sys sessions maxsessions st h = ground arith
