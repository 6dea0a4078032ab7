-- ===== src/Session/Count.antt =====
-- "Count sessions" of `handle_events` (app/src/main/cpp/session.c).
use mobile_injection.Base.{ℕ, suc, Bool, false, not, ◌||◌, List, [], ◌∷◌, ℤ, is_neg, if◌then◌else◌}
use mobile_injection.Types.{NgSession, UdpState, udp_state_eq}
use mobile_injection.System.{System, Trace}
use mobile_injection.Held.{to_ng, of_ng}
use mobile_injection.Tcp.Timeout.{is_closed}
use mobile_injection.Tcp.Monitor.{monitor_tcp_session}

-- Whether a session counts.
unfoldable pub is_active : NgSession → Bool
is_active (NgSession.icmp s) = not s.session.stop
is_active (NgSession.udp s) = udp_state_eq s.session.state UdpState.udp_active
is_active (NgSession.tcp s) = not (is_closed s.session.state)

unfoldable pub socket_of : NgSession → ℤ
socket_of (NgSession.icmp s) = s.socket
socket_of (NgSession.udp s) = s.socket
socket_of (NgSession.tcp s) = s.socket

-- A TCP session with a socket says whether the caller is to look again soon.
unfoldable pub monitor_session : System → NgSession → Trace → Bool × NgSession × Trace
monitor_session sys (NgSession.tcp s) tr =
    let (recheck, st) = monitor_tcp_session sys (of_ng s tr) in
    if is_neg s.socket
    then (false, NgSession.tcp s, tr)
    else (recheck, NgSession.tcp (to_ng st), st.trace)
monitor_session sys s tr = (false, s, tr)

-- The number of active sessions, counted before they are monitored.
pub record Counted : Type 0 where
  pub sessions : ℕ
  pub recheck : Bool
  pub list : List NgSession
  pub trace : Trace

unfoldable pub count_sessions : System → List NgSession → Trace → Counted
unfolding is_active monitor_session
count_sessions sys [] tr = record { sessions = 0; recheck = false; list = []; trace = tr }
count_sessions sys (s ∷ rest) tr =
    let (recheck, s1, tr1) = monitor_session sys s tr in
    let later = count_sessions sys rest tr1 in
    record {
      sessions = if is_active s then suc later.sessions else later.sessions;
      recheck = recheck || later.recheck;
      list = s1 ∷ later.list;
      trace = later.trace;
    }
