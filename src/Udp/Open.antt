-- ===== src/Udp/Open.antt =====
-- `open_udp_socket` of app/src/main/cpp/udp.c.
use mobile_injection.Base.{
  ℕ, Bool, false, Option, none, some, List, [], ◌∷◌, ℤ, negsuc, is_neg, ◌==◌, if◌then◌else◌,
}
use mobile_injection.Types.{UdpSession, bytes_eq}
use mobile_injection.System.{System, Trace, Event}
use mobile_injection.Net.Header.{ipproto_udp}
use mobile_injection.Tcp.Open.{Allowed, has_colon}

-- The IP version of the socket: that of the session, or of the address it is redirected to.
unfoldable pub udp_version : Option Allowed → UdpSession → ℕ
unfolding has_colon
udp_version none cur = cur.version
udp_version (some redirect) cur = if has_colon redirect.raddr then 6 else 4

-- The first byte of an IPv6 address is 0xff.
abbrev pub is_multicast : List ℕ → Bool
is_multicast [] = false
is_multicast (a ∷ addr) = a == 0xff

-- "Check for broadcast/multicast": the options that are set on the socket. Errors are only logged.
unfoldable pub allow_broadcast : UdpSession → ℤ → Trace → Trace
allow_broadcast cur sock tr =
    if cur.version == 4
    then (if bytes_eq cur.daddr (255 ∷ 255 ∷ 255 ∷ 255 ∷ [])
        then Event.set_broadcast sock ∷ tr
        else tr)
    else if is_multicast cur.daddr
    then Event.joined sock cur.daddr ∷ Event.set_hops sock ∷ Event.set_loop sock ∷ tr
    else tr

-- The socket or -1, and the trace. An early return leaves the socket open.
unfoldable pub open_udp_socket : System → Option Allowed → UdpSession → Trace → ℤ × Trace
unfolding udp_version allow_broadcast
open_udp_socket sys redirect cur tr =
    let version = udp_version redirect cur in
    let sock = sys.datagram_socket tr ipproto_udp version in
    let tr1 = Event.opened_datagram ipproto_udp version ∷ tr in
    let tr2 = Event.protected sock ∷ tr1 in
    if is_neg sock
    then (negsuc 0, tr1)
    else if is_neg (sys.protect tr1 sock)
    then (negsuc 0, tr2)
    else (sock, allow_broadcast cur sock tr2)
