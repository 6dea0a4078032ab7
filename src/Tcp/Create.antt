-- ===== src/Tcp/Create.antt =====
-- The packets of no session in `handle_tcp` (app/src/main/cpp/tcp.c): a SYN opens one, another segment
-- is answered with a reset.
use mobile_injection.Base.{
  ℕ, ◌+◌, ◌*◌, ◌^◌, ◌||◌, List, [], ◌∷◌, ℤ, pos, negsuc, is_neg, ◌==◌, take, u16, u32, ltb, length,
  if◌then◌else◌,
}
use mobile_injection.Base.Run.{◌>>=◌, read_bytes, Run, ok, fault}
use mobile_injection.Types.{TcpState, ConnectSent, NgSession, Arguments, epollout, epollerr}
use mobile_injection.System.{System, Trace, Event}
use mobile_injection.Net.Header.{get_default_mss}
use mobile_injection.Net.Decode.{TcpHeader, Addresses}
use mobile_injection.Held.{to_ng}
use mobile_injection.Tcp.State.{St}
use mobile_injection.Tcp.Write.{write_rst}
use mobile_injection.Tcp.Window.{get_receive_window}
use mobile_injection.Tcp.Queue.{new_segment}
use mobile_injection.Tcp.Options.{Options, options_loop}
use mobile_injection.Tcp.Open.{Allowed, open_tcp_socket}

-- "Register session": the session of a SYN, before its socket is opened. Data on the SYN is queued.
unfoldable pub new_session :
    System → Addresses → TcpHeader → Options → (bytes : List ℕ) (uid : ℤ) → Trace → St
new_session sys ip hdr o bytes uid tr =
    let tr1 = Event.asked_time ∷ tr in
    let isn = sys.rand tr1 in
    record {
      cur = record {
        uid = uid;
        time = sys.time tr;
        version = ip.version;
        mss = o.mss;
        recv_scale = o.ws;
        send_scale = o.ws;
        recv_window = 0;
        send_window = u32 (hdr.window * 2 ^ o.ws);
        remote_seq = hdr.seq;
        local_seq = u32 isn;
        remote_start = hdr.seq;
        local_start = u32 isn;
        acked = 0;
        last_keep_alive = 0;
        sent = 0;
        received = 0;
        saddr = ip.saddr;
        source = hdr.source;
        daddr = ip.daddr;
        dest = hdr.dest;
        state = TcpState.listen;
        forward = elim bytes [ [] ↦ [] | b ∷ bs ↦ new_segment hdr.seq hdr.psh (b ∷ bs) ∷ [] ];
        hostname = [];
        connect_sent =
            if hdr.dest == 80
            then ConnectSent.connect_established
            else ConnectSent.connect_not_sent;
      };
      socket = negsuc 0;
      events = 0;
      trace = Event.asked_rand ∷ tr1;
    }

-- "Open socket" and "Monitor events": the session is put in front of the list if its socket opens.
unfoldable pub open_session : System → Allowed → List NgSession → St → List NgSession × Trace
open_session sys redirect sessions st =
    let (sock, tr) = open_tcp_socket sys redirect st.cur st.trace in
    let (window, st1) = get_receive_window sys (record st { socket = sock; trace = tr }) in
    let events = epollout + epollerr in
    let st2 = record st1 {
      cur = record st1.cur { recv_window = window };
      events = events;
      trace = Event.added sock events ∷ st1.trace;
    } in
    if is_neg sock then (sessions, tr) else (NgSession.tcp (to_ng st2) ∷ sessions, st2.trace)

-- A segment of no session is answered with a reset. Its version is set to 4 whatever the packet is.
unfoldable pub reset_unknown : System → Addresses → TcpHeader → (datalen : ℕ) → Trace → Trace
reset_unknown sys ip hdr datalen tr =
    let st : St = record {
      cur = record {
        uid = pos 0;
        time = 0;
        version = 4;
        mss = 0;
        recv_scale = 0;
        send_scale = 0;
        recv_window = 0;
        send_window = 0;
        remote_seq = u32 (hdr.seq + datalen + (if hdr.syn || hdr.fin then 1 else 0));
        local_seq = hdr.ack_seq;
        remote_start = 0;
        local_start = 0;
        acked = 0;
        last_keep_alive = 0;
        sent = 0;
        received = 0;
        saddr = if ip.version == 4 then ip.saddr else take 4 ip.saddr;
        source = hdr.source;
        daddr = if ip.version == 4 then ip.daddr else take 4 ip.daddr;
        dest = hdr.dest;
        state = TcpState.unknown;
        forward = [];
        hostname = [];
        connect_sent = ConnectSent.connect_is_sent;
      };
      socket = negsuc 0;
      events = 0;
      trace = tr;
    } in
    (write_rst sys st).trace

-- The address of the proxy, copied by strcpy with its NUL into the 47 bytes of `raddr`.
unfoldable pub copy_proxy : Arguments → Run Allowed
copy_proxy args =
    if ltb (length args.proxy_ip) 47
    then ok (record { raddr = args.proxy_ip; rport = u16 args.proxy_port })
    else fault

-- A SYN of no session: the options are decoded and the session is opened. `options` and `mem` are the
-- memory from the options and from the data on.
unfoldable pub create_session :
    (fuel : ℕ)
    → System
    → Allowed
    → Addresses
    → TcpHeader
    → (options mem : List ℕ) → (optlen datalen : ℕ) (uid : ℤ) → List NgSession
    → Trace
    → Run (List NgSession × Trace)
unfolding read_bytes new_session open_session
create_session fuel sys redirect ip hdr options mem optlen datalen uid sessions tr = do
  o ← options_loop fuel options optlen (record { mss = get_default_mss ip.version; ws = 0 })
  bytes ← read_bytes mem datalen
  ok (open_session sys redirect sessions (new_session sys ip hdr o bytes uid tr))
