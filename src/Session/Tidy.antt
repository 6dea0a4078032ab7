-- ===== src/Session/Tidy.antt =====
-- The invariant of the list of sessions (app/src/main/cpp/session.c): a session that is over holds no
-- socket.
pub mod Packets
pub mod Events
pub mod Checks
pub mod Rounds
use mobile_injection.Base.{◌≡◌, true, List, is_neg, All}
use mobile_injection.Types.{NgSession}
use mobile_injection.System.{Trace}
use mobile_injection.Tcp.Tidy.{is_shut}
use mobile_injection.Udp.Tidy.{is_over}

-- TCP sessions in TCP_FIN_WAIT1, TCP_LAST_ACK and TCP_CLOSE, and UDP sessions that are closed or
-- blocked, are over. An ICMP session is deleted when its socket is closed.
abbrev pub IsTidySession : NgSession → Type 0
IsTidySession (NgSession.tcp s) = is_shut s.session.state ≡ true → is_neg s.socket ≡ true
IsTidySession (NgSession.udp s) = is_over s.session.state ≡ true → is_neg s.socket ≡ true
IsTidySession (NgSession.icmp s) = Unit

abbrev pub AllTidy : List NgSession × Trace → Type 0
AllTidy (sessions, tr) = All IsTidySession sessions
