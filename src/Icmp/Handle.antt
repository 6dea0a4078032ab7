-- ===== src/Icmp/Handle.antt =====
-- `handle_icmp` and `open_icmp_socket` of app/src/main/cpp/icmp.c: an echo request from the tun
-- device.
use mobile_injection.Base.{
  ℕ, ◌+◌, Bool, true, false, not, ◌&&◌, ◌||◌, Option, none, some, List, [], ◌∷◌, ◌++◌, ℤ, negsuc,
  is_neg, ◌==◌, not16, length, drop, if◌then◌else◌,
}
use mobile_injection.Base.Run.{◌>>=◌, Run, ok, read, read_bytes}
use mobile_injection.Util.Checksum.{calc_checksum}
use mobile_injection.Types.{IcmpSession, Ng, NgSession, bytes_eq, epollin, epollerr}
use mobile_injection.System.{System, Trace, Event, Sent}
use mobile_injection.Held.{Held, to_ng, of_ng, Found, find_session}
use mobile_injection.Net.Decode.{Addresses, read16, size_sub}
use mobile_injection.Net.Header.{ip6_pseudo, ipproto_icmp}
use mobile_injection.Icmp.Packet.{set_echo}
use mobile_injection.Icmp.Timer.{stamp_icmp, stop_icmp}

-- The loop that searches the session: not stopped, same version and addresses.
abbrev pub icmp_matches : Addresses → IcmpSession → Bool
icmp_matches ip cur =
    not cur.stop
    && (cur.version == ip.version && (bytes_eq cur.saddr ip.saddr && bytes_eq cur.daddr ip.daddr))

unfoldable pub pick_icmp : Addresses → NgSession → Option (Ng IcmpSession)
pick_icmp ip (NgSession.icmp s) = if icmp_matches ip s.session then some s else none
pick_icmp ip _ = none

-- The socket or -1, and the trace. An early return leaves the socket open.
unfoldable pub open_icmp_socket : System → IcmpSession → Trace → ℤ × Trace
open_icmp_socket sys cur tr =
    let sock = sys.datagram_socket tr ipproto_icmp cur.version in
    let tr1 = Event.opened_datagram ipproto_icmp cur.version ∷ tr in
    let tr2 = Event.protected sock ∷ tr1 in
    if is_neg sock
    then (negsuc 0, tr1)
    else if is_neg (sys.protect tr1 sock)
    then (negsuc 0, tr2)
    else (sock, tr2)

-- "Register session" and "Monitor events".
unfoldable pub new_icmp : System → Addresses → (id : ℕ) (uid : ℤ) → Trace → Held IcmpSession
unfolding open_icmp_socket
new_icmp sys ip id uid tr =
    let cur : IcmpSession = record {
      time = sys.time tr;
      uid = uid;
      version = ip.version;
      saddr = ip.saddr;
      daddr = ip.daddr;
      id = id;
      stop = false;
    } in
    let (sock, tr1) = open_icmp_socket sys cur (Event.asked_time ∷ tr) in
    let events = epollin + epollerr in
    if is_neg sock
    then record { cur = cur; socket = sock; events = 0; trace = tr1 }
    else record { cur = cur; socket = sock; events = events; trace = Event.added sock events ∷ tr1 }

-- The sum that the checksum starts with: that of the pseudo header of an IPv6 packet.
unfoldable pub request_start : Addresses → (packet : List ℕ) → Run ℕ
request_start ip packet =
    let pseudo = (do
      plen ← read16 packet 4
      nxt ← read packet 6
      ok (calc_checksum 0 (ip6_pseudo ip.daddr ip.saddr plen nxt))) in
    if ip.version == 6 then pseudo else ok 0

-- "Modify ID": the message that is sent. `packet` is the memory from the IP header on.
unfoldable pub echo_request : Addresses → (packet : List ℕ) (offset icmplen : ℕ) → Run (List ℕ)
unfolding request_start set_echo
echo_request ip packet offset icmplen = do
  let icmp = drop offset packet
  id ← read16 icmp 4
  start ← request_start ip packet
  message ← set_echo start (not16 id) icmplen icmp
  read_bytes message icmplen

-- What sendto answers. A short count leaves errno as an earlier call set it.
unfoldable pub sent_icmp :
    System → (icmplen : ℕ) → Sent → Held IcmpSession → Bool × Held IcmpSession
sent_icmp sys icmplen (Sent.count n) st =
    if n == icmplen || sys.errno_again st.trace then (true, st) else (false, stop_icmp st)
sent_icmp sys icmplen Sent.send_again st = (true, st)
sent_icmp sys icmplen Sent.send_failed st = (false, stop_icmp st)

unfoldable pub send_icmp : System → Addresses → List ℕ → Held IcmpSession → Bool × Held IcmpSession
unfolding sent_icmp
send_icmp sys ip message st =
    let st1 = stamp_icmp sys st in
    sent_icmp sys (length message) (sys.send_to st1.trace st1.socket message ip.daddr 0)
      (record st1 { trace = Event.sent_to st1.socket message ip.daddr 0 ∷ st1.trace })

-- The session is put back between those before it and those behind it.
unfoldable pub put_icmp :
    (front back : List NgSession)
    → Run (Bool × Held IcmpSession)
    → Run (Bool × List NgSession × Trace)
put_icmp front back r = do
  (done, st) ← r
  ok (done, front ++ (NgSession.icmp (to_ng st) ∷ back), st.trace)

unfoldable pub forward_icmp :
    System
    → Addresses
    → (packet : List ℕ) (offset icmplen : ℕ) → Held IcmpSession
    → Run (Bool × Held IcmpSession)
unfolding echo_request send_icmp
forward_icmp sys ip packet offset icmplen st = do
  message ← echo_request ip packet offset icmplen
  ok (send_icmp sys ip message st)

-- The packet of a session, or of a new one that is put in front of the list if its socket opens.
unfoldable pub serve_icmp :
    System
    → Addresses
    → (packet : List ℕ) (offset icmplen id : ℕ) (uid : ℤ) → List NgSession
    → Trace
    → Found IcmpSession
    → Run (Bool × List NgSession × Trace)
unfolding new_icmp forward_icmp put_icmp
serve_icmp sys ip packet offset icmplen id uid sessions tr none =
    let st = new_icmp sys ip id uid tr in
    let opened = put_icmp [] sessions (forward_icmp sys ip packet offset icmplen st) in
    if is_neg st.socket then ok (false, sessions, st.trace) else opened
serve_icmp sys ip packet offset icmplen id uid sessions tr (some (front, s, back)) =
    put_icmp front back (forward_icmp sys ip packet offset icmplen (of_ng s tr))

-- Only echo requests are handled: ICMP_ECHO is 8 for both versions.
unfoldable pub handle_icmp :
    System
    → (memory : List ℕ) (size payload : ℕ) → Addresses
    → (uid : ℤ) → List NgSession
    → Trace
    → Run (Bool × List NgSession × Trace)
unfolding find_session pick_icmp serve_icmp
handle_icmp sys memory size payload ip uid sessions tr = do
  let icmp = drop payload memory
  type ← read icmp 0
  let echo = (do
    id ← read16 icmp 4
    serve_icmp sys ip memory payload (size_sub size payload) id uid sessions tr
        (find_session (pick_icmp ip) sessions))
  if type == 8 then echo else ok (false, sessions, tr)
