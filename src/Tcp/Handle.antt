-- ===== src/Tcp/Handle.antt =====
-- `handle_tcp` of app/src/main/cpp/tcp.c: a TCP packet from the tun device.
pub mod Lookup
pub mod Moves
pub mod Returns
use mobile_injection.Base.{
  ℕ, ◌+◌, ◌-◌, ◌*◌, ◌^◌, Bool, not, ◌&&◌, Option, none, some, List, [], ◌∷◌, ◌++◌, ℤ, ◌==◌, drop,
  u8, u16, if◌then◌else◌,
}
use mobile_injection.Base.Run.{◌>>=◌, read_bytes, Run, ok}
use mobile_injection.Types.{TcpSession, ConnectSent, connect_eq, Ng, NgSession, Arguments, bytes_eq}
use mobile_injection.System.{System, Trace}
use mobile_injection.Net.Decode.{TcpHeader, Addresses, tcp_header}
use mobile_injection.Tls.{parse_tls_header}
use mobile_injection.Held.{behind, to_ng, of_ng}
use mobile_injection.Tcp.State.{St}
use mobile_injection.Tcp.Queue.{queue_tcp}
use mobile_injection.Tcp.Segment.{receive_segment}
use mobile_injection.Tcp.Create.{reset_unknown, copy_proxy, create_session}
use mobile_injection.Tcp.Open.{Allowed}
use mobile_injection.Tcp.Connect.{connect_proxy}

-- The loop that searches the session: same version, ports and addresses.
abbrev pub tcp_matches : Addresses → TcpHeader → TcpSession → Bool
tcp_matches ip hdr cur =
    cur.version == ip.version
    && (cur.source == hdr.source
        && (cur.dest == hdr.dest && (bytes_eq cur.saddr ip.saddr && bytes_eq cur.daddr ip.daddr)))

-- The sessions before the one found, the one found, and those behind it.
unfoldable pub find_tcp :
    Addresses
    → TcpHeader
    → List NgSession
    → Option (List NgSession × Ng TcpSession × List NgSession)
unfolding behind
find_tcp ip hdr [] = none
find_tcp ip hdr (NgSession.tcp s ∷ rest) =
    let later = behind (NgSession.tcp s) (find_tcp ip hdr rest) in
    if tcp_matches ip hdr s.session then some ([], s, rest) else later
find_tcp ip hdr (NgSession.udp s ∷ rest) = behind (NgSession.udp s) (find_tcp ip hdr rest)
find_tcp ip hdr (NgSession.icmp s ∷ rest) = behind (NgSession.icmp s) (find_tcp ip hdr rest)

-- "Session found". Until the proxy has accepted the CONNECT, segments to port 443 are only queued.
unfoldable pub found_session : System → TcpHeader → (hostname bytes : List ℕ) → St → St
unfolding connect_proxy
found_session sys hdr hostname bytes st =
    let st1 = if hdr.dest == 443 then connect_proxy sys hostname st else st in
    if hdr.dest == 443 && not (connect_eq st1.cur.connect_sent ConnectSent.connect_established)
    then record st1 { cur = queue_tcp hdr.seq hdr.psh bytes st1.cur }
    else receive_segment sys hdr bytes st1

-- (uint8_t) ((tcphdr->doff - 5) * 4).
abbrev pub option_length : (doff : ℕ) → ℕ
option_length doff = u8 (doff * 4 + 236)

-- (uint16_t) (length - (data - pkt)), where the data may begin behind the end of the packet.
abbrev pub data_length : (size offset : ℕ) → ℕ
data_length size offset = u16 (size + 2 ^ 32 - offset)

-- What is done with the segment of a session that was found.
unfoldable pub update_session :
    System
    → TcpHeader
    → (hostname mem : List ℕ) (datalen : ℕ) → (front : List NgSession) → Ng TcpSession
    → (back : List NgSession) → Trace
    → Run (List NgSession × Trace)
unfolding read_bytes found_session
update_session sys hdr hostname mem datalen front s back tr = do
  bytes ← read_bytes mem datalen
  let st = found_session sys hdr hostname bytes (of_ng s tr)
  ok (front ++ (NgSession.tcp (to_ng st) ∷ back), st.trace)

-- The branches on the session that was found. Urgent data is not handled.
unfoldable pub handle_segment :
    (fuel : ℕ)
    → System
    → Allowed
    → Addresses
    → TcpHeader
    → (hostname options mem : List ℕ) → (optlen datalen : ℕ) (uid : ℤ) → List NgSession
    → Trace
    → Option (List NgSession × Ng TcpSession × List NgSession)
    → Run (List NgSession × Trace)
unfolding create_session update_session reset_unknown
handle_segment fuel sys redirect ip hdr hostname options mem optlen datalen uid sessions tr none =
    let created =
      create_session fuel sys redirect ip hdr options mem optlen datalen uid sessions tr in
    if hdr.urg
    then ok (sessions, tr)
    else if hdr.syn
    then created
    else ok (sessions, reset_unknown sys ip hdr datalen tr)
handle_segment fuel sys redirect ip hdr hostname options mem optlen datalen uid sessions tr
      (some (front, s, back)) =
    let updated = update_session sys hdr hostname mem datalen front s back tr in
    if hdr.urg then ok (sessions, tr) else updated

-- `memory` is the buffer that the packet was read into, `payload` the offset of the TCP header and
-- `fuel` the bound on the options that are looked at.
unfoldable pub handle_tcp :
    (signed_char : Bool) (fuel : ℕ)
    → System
    → Arguments
    → (memory : List ℕ) (size payload : ℕ) → Addresses
    → (uid : ℤ) → List NgSession
    → Trace
    → Run (List NgSession × Trace)
unfolding find_tcp handle_segment copy_proxy
handle_tcp signed_char fuel sys args memory size payload ip uid sessions tr = do
  hdr ← tcp_header (drop payload memory)
  let optlen = option_length hdr.doff
  let offset = payload + (20 + optlen)
  let datalen = data_length size offset
  let mem = drop offset memory
  hostname ← parse_tls_header signed_char mem datalen []
  redirect ← copy_proxy args
  handle_segment fuel sys redirect ip hdr hostname (drop (payload + 20) memory) mem optlen datalen
      uid sessions tr (find_tcp ip hdr sessions)
