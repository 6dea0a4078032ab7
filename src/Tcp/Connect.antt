-- ===== src/Tcp/Connect.antt =====
-- The CONNECT request for port 443 in `handle_tcp` (app/src/main/cpp/tcp.c).
use mobile_injection.Base.{
  ℕ, ◌-◌, Bool, true, false, ◌&&◌, List, [], ◌∷◌, ◌++◌, take, if◌then◌else◌,
}
use mobile_injection.Base.Text.{codes}
use mobile_injection.Types.{TcpSession, TcpState, ConnectSent, connect_eq}
use mobile_injection.System.{System, Event, Sent}
use mobile_injection.Tcp.State.{St}
use mobile_injection.Tcp.Write.{write_rst}

-- An address in dotted notation, cut to a buffer of `hostlen` bytes with its NUL: DNS_LOOKUPS is not
-- defined.
unfoldable pub lookup_hostname : System → (addr : List ℕ) (hostlen : ℕ) → List ℕ
lookup_hostname sys addr hostlen = take (hostlen - 1) (sys.inet_ntoa addr)

-- The host that CONNECT names: the server name of the client hello, or the destination in dotted
-- notation. For an IPv6 session the first four bytes of its address are taken for an IPv4 address.
unfoldable pub connect_host : System → (hostname : List ℕ) → TcpSession → List ℕ
unfolding lookup_hostname
connect_host sys hostname cur = elim hostname [
  | [] ↦ lookup_hostname sys (take 4 cur.daddr) 512
  | c ∷ rest ↦ c ∷ rest
]

abbrev pub connect_request : List ℕ → List ℕ
connect_request host =
    codes "CONNECT " ++ (host ++ (codes ":443 HTTP/1.0" ++ (13 ∷ 10 ∷ 13 ∷ 10 ∷ [])))

-- The CONNECT request is sent with the first packet of a session to port 443.
unfoldable pub send_connect : System → St → St
send_connect sys st =
    let request = connect_request st.cur.hostname in
    let st1 = record st { trace = Event.sent st.socket request false ∷ st.trace } in
    elim (sys.send st.trace st.socket request false) [
      | Sent.count n ↦ record st1 {
        cur = record st1.cur {
          connect_sent = ConnectSent.connect_is_sent;
          state = TcpState.listen;
        };
      }
      | _ ↦ write_rst sys st1
    ]

-- The host name of a session is set unless it is empty.
unfoldable pub set_hostname : List ℕ → TcpSession → TcpSession
set_hostname [] cur = cur
set_hostname (c ∷ rest) cur = record cur { hostname = c ∷ rest }

abbrev pub has_name : List ℕ → Bool
has_name [] = false
has_name (c ∷ rest) = true

-- The first part of "session found": port 443 before the proxy has answered. An empty host name
-- leaves the session's name alone and sends nothing.
unfoldable pub connect_proxy : System → (hostname : List ℕ) → St → St
unfolding connect_host send_connect set_hostname
connect_proxy sys hostname st =
    let host = connect_host sys hostname st.cur in
    let st1 = record st { cur = set_hostname host st.cur } in
    if connect_eq st1.cur.connect_sent ConnectSent.connect_not_sent && has_name host
    then send_connect sys st1
    else st1
