-- ===== src/Session/Allowed.antt =====
-- `check_allowed`, `init` and `clear` of app/src/main/cpp/session.c.
pub mod Ends
use mobile_injection.Base.{true, List, [], ◌∷◌, is_neg, if◌then◌else◌}
use mobile_injection.Types.{NgSession, UdpSession, UdpState, Ng}
use mobile_injection.System.{System, Trace, Event}
use mobile_injection.Held.{to_ng, of_ng}
use mobile_injection.Tcp.Write.{write_rst}
use mobile_injection.Tcp.Timeout.{is_closed}
use mobile_injection.Session.Count.{socket_of}

-- A UDP session is ended or, if it was blocked, removed.
unfoldable pub disallow_udp : UdpState → Ng UdpSession → List NgSession → List NgSession
disallow_udp UdpState.udp_active s rest =
    NgSession.udp (record s { session = record s.session { state = UdpState.udp_finishing } })
    ∷ rest
disallow_udp UdpState.udp_blocked s rest = rest
disallow_udp _ s rest = NgSession.udp s ∷ rest

-- All sessions are ended: the list that is left, and the trace.
unfoldable pub check_allowed : System → List NgSession → Trace → List NgSession × Trace
unfolding disallow_udp
check_allowed sys [] tr = ([], tr)
check_allowed sys (NgSession.icmp s ∷ rest) tr =
    let (list, tr1) = check_allowed sys rest tr in
    (NgSession.icmp (record s { session = record s.session { stop = true } }) ∷ list, tr1)
check_allowed sys (NgSession.udp s ∷ rest) tr =
    let (list, tr1) = check_allowed sys rest tr in (disallow_udp s.session.state s list, tr1)
check_allowed sys (NgSession.tcp s ∷ rest) tr =
    let st = if is_closed s.session.state then of_ng s tr else write_rst sys (of_ng s tr) in
    let (list, tr1) = check_allowed sys rest st.trace in (NgSession.tcp (to_ng st) ∷ list, tr1)

unfoldable pub init : List NgSession → List NgSession
init list = []

-- The sockets are closed, and the list is empty then.
unfoldable pub close_all : List NgSession → Trace → Trace
close_all [] tr = tr
close_all (s ∷ rest) tr =
    close_all rest (if is_neg (socket_of s) then tr else Event.closed (socket_of s) ∷ tr)

unfoldable pub clear : List NgSession → Trace → List NgSession × Trace
unfolding close_all
clear list tr = ([], close_all list tr)
