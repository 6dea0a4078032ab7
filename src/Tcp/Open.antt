-- ===== src/Tcp/Open.antt =====
-- `open_tcp_socket` of app/src/main/cpp/tcp.c. Ports 80 and 443 are redirected to the proxy.
pub mod Protected
use mobile_injection.Base.{
  ℕ, Bool, false, ◌||◌, List, [], ◌∷◌, ℤ, negsuc, is_neg, ◌==◌, if◌then◌else◌,
}
use mobile_injection.Types.{TcpSession}
use mobile_injection.System.{System, Trace, Event}

-- struct allowed: where connections to the web go.
pub record Allowed : Type 0 where
  pub raddr : List ℕ
  pub rport : ℕ

-- strstr(text, ":") != NULL.
unfoldable pub has_colon : List ℕ → Bool
has_colon [] = false
has_colon (c ∷ text) = c == b':' || has_colon text

abbrev pub is_web : ℕ → Bool
is_web port = port == 80 || port == 443

-- The IP version of the socket: that of the proxy's address, or of the session.
unfoldable pub target_version : Allowed → TcpSession → ℕ
unfolding has_colon
target_version redirect cur =
    if is_web cur.dest then (if has_colon redirect.raddr then 6 else 4) else cur.version

-- "Build target address": the address and the port to connect to.
unfoldable pub target : System → Allowed → TcpSession → List ℕ × ℕ
target sys redirect cur =
    if is_web cur.dest
    then (sys.inet_pton redirect.raddr, redirect.rport)
    else (cur.daddr, cur.dest)

-- The socket or -1, and the trace. An early return leaves the socket open.
unfoldable pub open_tcp_socket : System → Allowed → TcpSession → Trace → ℤ × Trace
unfolding target_version target
open_tcp_socket sys redirect cur tr =
    let version = target_version redirect cur in
    let sock = sys.socket tr version in
    let tr1 = Event.opened version ∷ tr in
    let tr2 = Event.protected sock ∷ tr1 in
    let tr3 = Event.got_flags sock ∷ tr2 in
    let tr4 = Event.set_nonblock sock ∷ tr3 in
    let (addr, port) = target sys redirect cur in
    let tr5 = Event.connected sock addr port ∷ tr4 in
    if is_neg sock
    then (negsuc 0, tr1)
    else if is_neg (sys.protect tr1 sock)
    then (negsuc 0, tr2)
    else if is_neg (sys.get_flags tr2 sock)
    then (negsuc 0, tr3)
    else if is_neg (sys.set_flags tr3 sock)
    then (negsuc 0, tr4)
    else if sys.connect_fails tr4 sock addr port
    then (negsuc 0, tr5)
    else (sock, tr5)
