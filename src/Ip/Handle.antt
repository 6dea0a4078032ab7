-- ===== src/Ip/Handle.antt =====
-- `handle_ip` and `check_tun` of app/src/main/cpp/ip.c: a packet from the tun device goes to the
-- handler of its protocol.
pub mod Limit
pub mod Full
use mobile_injection.Base.{
  ℕ, ◌+◌, ◌-◌, ◌*◌, Bool, true, false, not, ◌&&◌, Option, none, some, List, [], ◌∷◌, ◌++◌, ℤ,
  negsuc, leb, ◌==◌, length, drop, if◌then◌else◌,
}
use mobile_injection.Base.Run.{◌>>=◌, Run, ok}
use mobile_injection.Types.{NgSession, Arguments, epollin, epollerr}
use mobile_injection.System.{System, Trace, Event, Received}
use mobile_injection.Held.{has_event}
use mobile_injection.Net.Header.{get_mtu, ipproto_tcp, ipproto_udp}
use mobile_injection.Tcp.Handle.{handle_tcp}
use mobile_injection.Udp.Handle.{handle_udp, has_udp_session}
use mobile_injection.Icmp.Handle.{handle_icmp}
use mobile_injection.Ip.Parse.{Packet, Ports, parse_ip, parse_ports, is_icmp}
use mobile_injection.Ip.Uid.{get_uid}

-- What the build and the settings choose: whether char is signed, whether the log level has the
-- header's checksum tested, the rounds that bound the loops over packets, and the descriptor of the
-- tun device.
pub record Settings : Type 0 where
  pub signed_char : Bool
  pub check : Bool
  pub fuel : ℕ
  pub tun : ℤ

-- A packet that may open a session.
unfoldable pub may_open : Arguments → Packet → Ports → (memory : List ℕ) → List NgSession → Run Bool
unfolding has_udp_session
may_open args p ports memory list =
    let udp = (do
      known ← has_udp_session args p.addresses (drop p.payload memory) list
      ok (not known)) in
    if is_icmp p.protocol
    then ok true
    else if p.protocol == ipproto_udp
    then udp
    else ok (p.protocol == ipproto_tcp && ports.syn)

-- The handler of the protocol. The results of the handlers are not used.
unfoldable pub dispatch :
    Settings
    → System
    → Arguments
    → Packet
    → (memory : List ℕ) (size : ℕ) (uid : ℤ) → List NgSession
    → Trace
    → Run (List NgSession × Trace)
dispatch cfg sys args p memory size uid list tr =
    let icmp = (do
      (done, list1, tr1) ← handle_icmp sys memory size p.payload p.addresses uid list tr
      ok (list1, tr1)) in
    let udp = (do
      (done, list1, tr1) ←
          handle_udp cfg.fuel sys args memory size p.payload p.addresses uid list tr
      ok (list1, tr1)) in
    let tcp =
      handle_tcp cfg.signed_char cfg.fuel sys args memory size p.payload p.addresses uid list tr in
    if is_icmp p.protocol
    then icmp
    else if p.protocol == ipproto_udp
    then udp
    else if p.protocol == ipproto_tcp
    then tcp
    else ok (list, tr)

-- "Limit number of sessions", "Get uid" and the call of the handler.
unfoldable pub handle_packet :
    Settings
    → System
    → Arguments
    → (sessions maxsessions : ℕ) → Packet
    → Ports
    → (memory : List ℕ) (size : ℕ) → List NgSession
    → Trace
    → Run (List NgSession × Trace)
unfolding may_open dispatch
handle_packet cfg sys args sessions maxsessions p ports memory size list tr = do
  opens ← may_open args p ports memory list
  let (uid, tr1) =
      if opens
      then get_uid sys p.addresses.version p.protocol ports.sport p.addresses.daddr ports.dport tr
      else (negsuc 0, tr)
  let handled = dispatch cfg sys args p memory size uid list tr1
  if leb maxsessions sessions && opens then ok (list, tr) else handled

-- The packet whose IP header has been read.
unfoldable pub handle_payload :
    Settings
    → System
    → Arguments
    → (sessions maxsessions : ℕ) → Packet
    → (memory : List ℕ) (size : ℕ) → List NgSession
    → Trace
    → Option Ports
    → Run (List NgSession × Trace)
unfolding handle_packet
handle_payload cfg sys args sessions maxsessions p memory size list tr none = ok (list, tr)
handle_payload cfg sys args sessions maxsessions p memory size list tr (some ports) =
    handle_packet cfg sys args sessions maxsessions p ports memory size list tr

unfoldable pub handle_parsed :
    Settings
    → System
    → Arguments
    → (memory : List ℕ) (size sessions maxsessions : ℕ) → List NgSession
    → Trace
    → Option Packet
    → Run (List NgSession × Trace)
unfolding parse_ports handle_payload
handle_parsed cfg sys args memory size sessions maxsessions list tr none = ok (list, tr)
handle_parsed cfg sys args memory size sessions maxsessions list tr (some p) = do
  ports ← parse_ports p memory size
  handle_payload cfg sys args sessions maxsessions p memory size list tr ports

-- `memory` is the buffer that the packet was read into, and `size` the length of the packet.
unfoldable pub handle_ip :
    Settings
    → System
    → Arguments
    → (memory : List ℕ) (size sessions maxsessions : ℕ) → List NgSession
    → Trace
    → Run (List NgSession × Trace)
unfolding parse_ip handle_parsed
handle_ip cfg sys args memory size sessions maxsessions list tr = do
  parsed ← parse_ip cfg.check cfg.fuel memory size
  handle_parsed cfg sys args memory size sessions maxsessions list tr parsed

-- What read of the tun device answers: the result is 0 (true) or -1 (false).
unfoldable pub tun_received :
    Settings
    → System
    → Arguments
    → (sessions maxsessions : ℕ) → Received
    → List NgSession
    → Trace
    → Run (Bool × List NgSession × Trace)
unfolding handle_ip
tun_received cfg sys args sessions maxsessions (Received.bytes []) list tr = ok (false, list, tr)
tun_received cfg sys args sessions maxsessions (Received.bytes (b ∷ bs)) list tr = do
  let buffer = (b ∷ bs) ++ sys.leftover tr (get_mtu * 2 - length (b ∷ bs))
  (list1, tr1) ← handle_ip cfg sys args buffer (length (b ∷ bs)) sessions maxsessions list tr
  ok (true, list1, tr1)
tun_received cfg sys args sessions maxsessions Received.recv_again list tr = ok (true, list, tr)
tun_received cfg sys args sessions maxsessions Received.recv_failed list tr = ok (false, list, tr)

unfoldable pub check_tun :
    Settings
    → System
    → Arguments
    → (events sessions maxsessions : ℕ) → List NgSession
    → Trace
    → Run (Bool × List NgSession × Trace)
unfolding tun_received
check_tun cfg sys args events sessions maxsessions list tr =
    let answered =
      tun_received cfg sys args sessions maxsessions (sys.read_tun tr get_mtu) list
        (Event.read_tun get_mtu ∷ tr) in
    if has_event events epollerr
    then ok (false, list, tr)
    else if has_event events epollin
    then answered
    else ok (true, list, tr)
