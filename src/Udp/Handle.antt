-- ===== src/Udp/Handle.antt =====
-- `handle_udp`, `has_udp_session` and `block_udp` of app/src/main/cpp/udp.c: a UDP packet from the
-- tun device.
use mobile_injection.Base.{
  ℕ, ◌+◌, ◌%◌, ◌^◌, Bool, true, false, not, ◌&&◌, ◌||◌, Option, none, some, List, [], ◌∷◌, ◌++◌, ℤ,
  negsuc, is_neg, ◌==◌, length, drop, if◌then◌else◌,
}
use mobile_injection.Base.Run.{◌>>=◌, Run, ok, read_bytes}
use mobile_injection.Types.{
  UdpSession, UdpState, udp_state_eq, Ng, NgSession, Arguments, bytes_eq, epollin, epollerr,
}
use mobile_injection.System.{System, Trace, Event, Sent}
use mobile_injection.Held.{Held, to_ng, of_ng, Found, is_found, find_session}
use mobile_injection.Net.Decode.{UdpHeader, Addresses, udp_header, size_sub}
use mobile_injection.Dns.{get_dns_query}
use mobile_injection.Udp.Timer.{set_udp_state, stamp_udp}
use mobile_injection.Udp.Open.{open_udp_socket}
use mobile_injection.Udp.Dhcp.{check_dhcp}

-- The loop that searches the session: same version, ports and addresses.
abbrev pub udp_matches : Addresses → UdpHeader → UdpSession → Bool
udp_matches ip hdr cur =
    cur.version == ip.version
    && (cur.source == hdr.source
        && (cur.dest == hdr.dest && (bytes_eq cur.saddr ip.saddr && bytes_eq cur.daddr ip.daddr)))

unfoldable pub pick_udp : Addresses → UdpHeader → NgSession → Option (Ng UdpSession)
pick_udp ip hdr (NgSession.udp s) = if udp_matches ip hdr s.session then some s else none
pick_udp ip hdr _ = none

-- DNS packets that are not forwarded count as packets of a session.
unfoldable pub has_udp_session :
    Arguments → Addresses → (payload : List ℕ) → List NgSession → Run Bool
unfolding find_session pick_udp
has_udp_session args ip payload sessions = do
  hdr ← udp_header payload
  let found = is_found (find_session (pick_udp ip hdr) sessions)
  ok (if hdr.dest == 53 && not args.fwd53 then true else found)

-- `junk` is what the fields hold that the code does not write.
unfoldable pub block_udp :
    System
    → Addresses
    → (payload : List ℕ) (uid : ℤ) (junk : Ng UdpSession) → List NgSession
    → Trace
    → Run (List NgSession × Trace)
block_udp sys ip payload uid junk sessions tr = do
  hdr ← udp_header payload
  let cur : UdpSession = record junk.session {
    time = sys.time tr;
    uid = uid;
    version = ip.version;
    saddr = ip.saddr;
    daddr = ip.daddr;
    source = hdr.source;
    dest = hdr.dest;
    state = UdpState.udp_blocked;
  }
  ok (
    NgSession.udp (record junk { session = cur; socket = negsuc 0 }) ∷ sessions,
    Event.asked_time ∷ tr,
  )

-- "Register session": the session of a packet, before its socket is opened. UDP4_MAXMSG and
-- UDP6_MAXMSG are the sizes of its messages.
unfoldable pub new_udp : System → Addresses → UdpHeader → (uid : ℤ) → Trace → Held UdpSession
new_udp sys ip hdr uid tr = record {
  cur = record {
    time = sys.time tr;
    uid = uid;
    version = ip.version;
    mss = if ip.version == 4 then 65_507 else 65_487;
    sent = 0;
    received = 0;
    saddr = ip.saddr;
    source = hdr.source;
    daddr = ip.daddr;
    dest = hdr.dest;
    state = UdpState.udp_active;
  };
  socket = negsuc 0;
  events = 0;
  trace = Event.asked_time ∷ tr;
}

-- "Open UDP socket" and "Monitor events".
unfoldable pub open_udp : System → Held UdpSession → Held UdpSession
open_udp sys st =
    let (sock, tr) = open_udp_socket sys none st.cur st.trace in
    let events = epollin + epollerr in
    if is_neg sock
    then record st { socket = sock; trace = tr }
    else record st { socket = sock; events = events; trace = Event.added sock events ∷ tr }

-- What sendto answers. A short count leaves errno as an earlier call set it.
unfoldable pub sent_udp : System → (datalen : ℕ) → Sent → Held UdpSession → Bool × Held UdpSession
sent_udp sys datalen (Sent.count n) st =
    if n == datalen
    then (true, record st { cur = record st.cur { sent = (st.cur.sent + datalen) % 2 ^ 64 } })
    else if sys.errno_again st.trace
    then (true, st)
    else (false, set_udp_state UdpState.udp_finishing st)
sent_udp sys datalen Sent.send_again st = (true, st)
sent_udp sys datalen Sent.send_failed st = (false, set_udp_state UdpState.udp_finishing st)

-- "UDP forward from tun": the data is sent to the address and the port of the session.
unfoldable pub send_udp : System → List ℕ → Held UdpSession → Bool × Held UdpSession
unfolding sent_udp
send_udp sys bytes st =
    let st1 = stamp_udp sys st in
    let answer = sys.send_to st1.trace st1.socket bytes st1.cur.daddr st1.cur.dest in
    sent_udp sys (length bytes) answer
      (record st1 { trace = Event.sent_to st1.socket bytes st1.cur.daddr st1.cur.dest ∷ st1.trace })

-- "Check for DNS": the query is only parsed for the log.
unfoldable pub check_dns : (fuel dest : ℕ) (mem : List ℕ) (datalen : ℕ) → Run (Unit {0})
check_dns fuel dest mem datalen =
    let parsed = (do query ← get_dns_query fuel mem datalen; ok tt) in
    if dest == 53 then parsed else ok tt

-- The packet of an active session: DNS, then DHCP, then the data goes to the socket.
unfoldable pub forward_udp :
    (fuel : ℕ)
    → System
    → UdpHeader
    → (mem : List ℕ) (datalen : ℕ) → Held UdpSession
    → Run (Bool × Held UdpSession)
unfolding check_dns send_udp
forward_udp fuel sys hdr mem datalen st = do
  nothing ← check_dns fuel hdr.dest mem datalen
  let checked = check_dhcp sys mem datalen st
  (dhcp, st1) ← (if hdr.source == 68 || hdr.dest == 67 then checked else ok (false, st))
  let sent = (do bytes ← read_bytes mem datalen; ok (send_udp sys bytes st1))
  if dhcp then ok (true, st1) else sent

-- The session is put back between those before it and those behind it.
unfoldable pub put_udp :
    (front back : List NgSession)
    → Run (Bool × Held UdpSession)
    → Run (Bool × List NgSession × Trace)
put_udp front back r = do
  (done, st) ← r
  ok (done, front ++ (NgSession.udp (to_ng st) ∷ back), st.trace)

-- A session that is not active ignores its packets; a packet of no session opens one, which is put
-- in front of the list if its socket opens.
unfoldable pub serve_udp :
    (fuel : ℕ)
    → System
    → Addresses
    → UdpHeader
    → (mem : List ℕ) (datalen : ℕ) (uid : ℤ) → List NgSession
    → Trace
    → Found UdpSession
    → Run (Bool × List NgSession × Trace)
unfolding new_udp open_udp forward_udp put_udp
serve_udp fuel sys ip hdr mem datalen uid sessions tr none =
    let st = open_udp sys (new_udp sys ip hdr uid tr) in
    let opened = put_udp [] sessions (forward_udp fuel sys hdr mem datalen st) in
    if is_neg st.socket then ok (false, sessions, st.trace) else opened
serve_udp fuel sys ip hdr mem datalen uid sessions tr (some (front, s, back)) =
    let served = put_udp front back (forward_udp fuel sys hdr mem datalen (of_ng s tr)) in
    if udp_state_eq s.session.state UdpState.udp_active then served else ok (false, sessions, tr)

-- `memory` is the buffer that the packet was read into, `size` the length of the packet and `payload`
-- the offset of the UDP header.
unfoldable pub handle_udp :
    (fuel : ℕ)
    → System
    → Arguments
    → (memory : List ℕ) (size payload : ℕ) → Addresses
    → (uid : ℤ) → List NgSession
    → Trace
    → Run (Bool × List NgSession × Trace)
unfolding find_session pick_udp serve_udp
handle_udp fuel sys args memory size payload ip uid sessions tr = do
  hdr ← udp_header (drop payload memory)
  let offset = payload + 8
  serve_udp fuel sys ip hdr (drop offset memory) (size_sub size offset) uid sessions tr
      (find_session (pick_udp ip hdr) sessions)
