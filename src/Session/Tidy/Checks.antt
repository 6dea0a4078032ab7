-- ===== src/Session/Tidy/Checks.antt =====
-- Counting, checking and ending the sessions (app/src/main/cpp/session.c), and the sockets of those
-- that are over.
use mobile_injection.Base.{
  ℕ, ◌≡◌, arith, Bool, true, false, ◌⊎◌, is_neg, List, [], ◌∷◌, ℤ, All, Bool-cases, inl, inr,
  if◌then◌else◌,
}
use mobile_injection.Types.{UdpSession, UdpState, IcmpSession, Ng, NgSession}
use mobile_injection.System.{System, Trace}
use mobile_injection.Held.{Held, of_ng}
use mobile_injection.Tcp.State.{St}
use mobile_injection.Tcp.Write.{write_rst}
use mobile_injection.Tcp.Timeout.{is_closed}
use mobile_injection.Tcp.Tidy.{
  IsTidy, write_rst-IsTidy, check_tcp_session-IsTidy, monitor_tcp_session-IsTidy,
}
use mobile_injection.Udp.Tidy.{check_udp_session-IsTidy}
use mobile_injection.Icmp.Timer.{check_icmp_session}
use mobile_injection.Session.Count.{socket_of, monitor_session, count_sessions}
use mobile_injection.Session.Check.{check_session, check_sessions, next_timeout}
use mobile_injection.Session.Check.Settled.{Settled, check_session-Settled}
use mobile_injection.Session.Allowed.{disallow_udp, check_allowed}
use mobile_injection.Session.Tidy.{IsTidySession, AllTidy}

monitor_session-IsTidy :
    (sys : System) (s : NgSession) (tr : Trace)
    → IsTidySession s
    → IsTidySession (monitor_session sys s tr).1
unfolding monitor_session
monitor_session-IsTidy sys (NgSession.icmp s) tr h = tt
monitor_session-IsTidy sys (NgSession.udp s) tr h = h
monitor_session-IsTidy sys (NgSession.tcp s) tr h = elim (Bool-cases (is_neg s.socket)) [
  | inl none_left ↦ rw none_left h
  | inr has_one ↦ rw has_one (monitor_tcp_session-IsTidy sys (of_ng s tr) h)
]

pub count_sessions-IsTidy :
    (sys : System) (list : List NgSession) (tr : Trace)
    → All IsTidySession list
    → All IsTidySession (count_sessions sys list tr).list
unfolding count_sessions
count_sessions-IsTidy sys [] tr all = tt
count_sessions-IsTidy sys (s ∷ rest) tr (h, all) =
    (monitor_session-IsTidy sys s tr h, count_sessions-IsTidy sys rest _ all)

check_icmp_session-closes :
    (sys : System) (sessions maxsessions : ℕ) (st : Held IcmpSession)
    → let r = check_icmp_session sys sessions maxsessions st in
      (r.0 ≡ false) ⊎ (is_neg r.1.socket ≡ true)
unfolding check_icmp_session
check_icmp_session-closes sys sessions maxsessions st = ground arith

-- The check of a session of any protocol keeps the invariant that a session that is over holds no socket, and
-- a session that it says is to be deleted holds none. It keeps the session's socket, or the session has
-- none behind it and the socket has been closed: none is lost when the session is freed.
pub check_session-closes :
    (sys : System) (sessions maxsessions : ℕ) (s : NgSession) (tr : Trace)
    → IsTidySession s
    → let r = check_session sys sessions maxsessions s tr in
      IsTidySession r.1
      × (((r.0 ≡ false) ⊎ (is_neg (socket_of r.1) ≡ true))
          × Settled (socket_of s) (socket_of r.1) r.2)
unfolding check_session socket_of
check_session-closes sys sessions maxsessions (NgSession.icmp s) tr h = (
  tt,
  (
    check_icmp_session-closes sys sessions maxsessions (of_ng s tr),
    check_session-Settled sys sessions maxsessions (NgSession.icmp s) tr,
  ),
)
check_session-closes sys sessions maxsessions (NgSession.udp s) tr h =
    let (tidy, closed) = check_udp_session-IsTidy sys sessions maxsessions (of_ng s tr) h in
    (tidy, (closed, check_session-Settled sys sessions maxsessions (NgSession.udp s) tr))
check_session-closes sys sessions maxsessions (NgSession.tcp s) tr h =
    let (tidy, closed) = check_tcp_session-IsTidy sys sessions maxsessions (of_ng s tr) h in
    (
      tidy,
      (
        elim closed [ inl kept ↦ inl kept | inr (state, socket) ↦ inr socket ],
        check_session-Settled sys sessions maxsessions (NgSession.tcp s) tr,
      ),
    )

pub check_sessions-IsTidy :
    (sys : System) (sessions maxsessions now : ℕ) (timeout : ℤ) (list : List NgSession) (tr : Trace)
    → All IsTidySession list
    → All IsTidySession (check_sessions sys sessions maxsessions now timeout list tr).list
unfolding check_sessions
check_sessions-IsTidy sys sessions maxsessions now timeout [] tr all = tt
check_sessions-IsTidy sys sessions maxsessions now timeout (s ∷ rest) tr (h, all) =
    let r = check_session sys sessions maxsessions s tr in
    let own = check_session-closes sys sessions maxsessions s tr h in
    let shorter : ℤ = if r.0 then timeout else next_timeout sessions maxsessions now r.1 timeout in
    kept r.0 r.1 _ own.0 (check_sessions-IsTidy sys sessions maxsessions now shorter rest r.2 all)
  where
    kept :
        (del : Bool) (s : NgSession) (others : List NgSession)
        → IsTidySession s
        → All IsTidySession others
        → All IsTidySession (if del then others else s ∷ others)
    kept true s others h k = k
    kept false s others h k = (h, k)

disallow_udp-IsTidy :
    (state : UdpState) (s : Ng UdpSession) (list : List NgSession)
    → IsTidySession (NgSession.udp s)
    → All IsTidySession list
    → All IsTidySession (disallow_udp state s list)
unfolding disallow_udp
disallow_udp-IsTidy UdpState.udp_active s list h all = (λ e. cc, all)
disallow_udp-IsTidy UdpState.udp_finishing s list h all = (h, all)
disallow_udp-IsTidy UdpState.udp_closed s list h all = (h, all)
disallow_udp-IsTidy UdpState.udp_blocked s list h all = all

disallow_tcp-IsTidy :
    (sys : System) (st : St)
    → IsTidy st
    → IsTidy (if is_closed st.cur.state then st else write_rst sys st)
disallow_tcp-IsTidy sys st h = elim (Bool-cases (is_closed st.cur.state)) [
  | inl over ↦ rw over h
  | inr alive ↦ rw alive (write_rst-IsTidy sys st h)
]

pub check_allowed-IsTidy :
    (sys : System) (list : List NgSession) (tr : Trace)
    → All IsTidySession list
    → AllTidy (check_allowed sys list tr)
unfolding check_allowed
check_allowed-IsTidy sys [] tr all = tt
check_allowed-IsTidy sys (NgSession.icmp s ∷ rest) tr (h, all) =
    (tt, check_allowed-IsTidy sys rest tr all)
check_allowed-IsTidy sys (NgSession.udp s ∷ rest) tr (h, all) =
    disallow_udp-IsTidy s.session.state s _ h (check_allowed-IsTidy sys rest tr all)
check_allowed-IsTidy sys (NgSession.tcp s ∷ rest) tr (h, all) =
    (disallow_tcp-IsTidy sys (of_ng s tr) h, check_allowed-IsTidy sys rest _ all)
