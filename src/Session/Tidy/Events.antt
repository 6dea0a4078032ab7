-- ===== src/Session/Tidy/Events.antt =====
-- The events that epoll reports (app/src/main/cpp/session.c) and the sockets of the sessions that are
-- over.
use mobile_injection.Base.{
  ℕ, zero, suc, ◌-◌, ◌*◌, not, ◌&&◌, ◌==◌, List, [], ◌∷◌, ◌++◌, length, All,
}
use mobile_injection.Base.Run.{EachOk, EachOk->>=, EachOk-bind, EachOk-if}
use mobile_injection.Types.{UdpSession, NgSession, Arguments, epollin, epollerr}
use mobile_injection.System.{System, Trace, Event, Received, Source}
use mobile_injection.Held.{Held, of_ng, has_event}
use mobile_injection.Tcp.Tidy.{IsTidy}
use mobile_injection.Tcp.Tidy.Socket.{check_tcp_socket-IsTidy}
use mobile_injection.Udp.Tidy.{IsTidyUdp, check_udp_socket-IsTidy}
use mobile_injection.Icmp.Socket.{check_icmp_socket}
use mobile_injection.Ip.Handle.{Settings, handle_ip, tun_received, check_tun}
use mobile_injection.Net.Header.{get_mtu}
use mobile_injection.Session.Events.{
  Served, tun_loop, udp_loop, serve_session, serve_at, serve_event, serve_events,
}
use mobile_injection.Session.Tidy.{IsTidySession, AllTidy}
use mobile_injection.Session.Tidy.Packets.{TidyResult, handle_ip-IsTidy}

tun_received-IsTidy :
    (cfg : Settings) (sys : System) (args : Arguments) (sessions maxsessions : ℕ) (r : Received)
    (list : List NgSession) (tr : Trace)
    → All IsTidySession list
    → EachOk TidyResult (tun_received cfg sys args sessions maxsessions r list tr)
unfolding tun_received
tun_received-IsTidy cfg sys args sessions maxsessions (Received.bytes []) list tr all = all
tun_received-IsTidy cfg sys args sessions maxsessions (Received.bytes (b ∷ bs)) list tr all =
    let buffer = (b ∷ bs) ++ sys.leftover tr (get_mtu * 2 - length (b ∷ bs)) in
    EachOk-bind AllTidy TidyResult
      (handle_ip cfg sys args buffer (length (b ∷ bs)) sessions maxsessions list tr) _
      (handle_ip-IsTidy cfg sys args buffer (length (b ∷ bs)) sessions maxsessions list tr all)
      (λ r k. k)
tun_received-IsTidy cfg sys args sessions maxsessions Received.recv_again list tr all = all
tun_received-IsTidy cfg sys args sessions maxsessions Received.recv_failed list tr all = all

check_tun-IsTidy :
    (cfg : Settings) (sys : System) (args : Arguments) (events sessions maxsessions : ℕ)
    (list : List NgSession) (tr : Trace)
    → All IsTidySession list
    → EachOk TidyResult (check_tun cfg sys args events sessions maxsessions list tr)
unfolding check_tun
check_tun-IsTidy cfg sys args events sessions maxsessions list tr all =
    EachOk-if TidyResult (has_event events epollerr) _ _ all (
      EachOk-if TidyResult (has_event events epollin) _ _
        (tun_received-IsTidy cfg sys args sessions maxsessions (sys.read_tun tr get_mtu) list
          (Event.read_tun get_mtu ∷ tr) all)
        all)

tun_loop-IsTidy :
    (rounds : ℕ) (cfg : Settings) (sys : System) (args : Arguments)
    (events sessions maxsessions : ℕ) (list : List NgSession) (tr : Trace)
    → All IsTidySession list
    → EachOk TidyResult (tun_loop rounds cfg sys args events sessions maxsessions list tr)
unfolding tun_loop
tun_loop-IsTidy zero cfg sys args events sessions maxsessions list tr all = tt
tun_loop-IsTidy (suc rounds) cfg sys args events sessions maxsessions list tr all =
    EachOk-if TidyResult (sys.readable tr cfg.tun) _ _
      (EachOk-bind TidyResult TidyResult _ _
        (check_tun-IsTidy cfg sys args events sessions maxsessions list
          (Event.asked_readable cfg.tun ∷ tr) all)
        (λ r k.
          EachOk-if TidyResult r.0 _ _
            (tun_loop-IsTidy rounds cfg sys args events sessions maxsessions r.1 r.2 k) k))
      all

udp_loop-IsTidy :
    (rounds fuel : ℕ) (sys : System) (events : ℕ) (st : Held UdpSession)
    → IsTidyUdp st
    → EachOk IsTidyUdp (udp_loop rounds fuel sys events st)
unfolding udp_loop
udp_loop-IsTidy zero fuel sys events st h = tt
udp_loop-IsTidy (suc rounds) fuel sys events st h =
    let st1 : Held UdpSession = record st { trace = Event.asked_readable st.socket ∷ st.trace } in
    EachOk-if IsTidyUdp (not (has_event events epollerr) && has_event events epollin) _ _
      (EachOk-if IsTidyUdp (sys.readable st.trace st.socket) _ _
        (EachOk-bind IsTidyUdp IsTidyUdp _ _ (check_udp_socket-IsTidy fuel sys events st1 h)
          (λ st2 k. udp_loop-IsTidy rounds fuel sys events st2 k))
        h)
      h

-- A session and the trace.
abbrev TidyOne : NgSession × Trace → Type 0
TidyOne (s, tr) = IsTidySession s

serve_session-IsTidy :
    (rounds : ℕ) (cfg : Settings) (sys : System) (events : ℕ) (s : NgSession) (tr : Trace)
    → IsTidySession s
    → EachOk TidyOne (serve_session rounds cfg sys events s tr)
unfolding serve_session
serve_session-IsTidy rounds cfg sys events (NgSession.icmp s) tr h =
    EachOk->>= TidyOne (check_icmp_socket sys events (of_ng s tr)) _ (λ st. tt)
serve_session-IsTidy rounds cfg sys events (NgSession.udp s) tr h =
    EachOk-bind IsTidyUdp TidyOne _ _ (udp_loop-IsTidy rounds cfg.fuel sys events (of_ng s tr) h)
      (λ st k. k)
serve_session-IsTidy rounds cfg sys events (NgSession.tcp s) tr h =
    EachOk-bind IsTidy TidyOne _ _ (check_tcp_socket-IsTidy rounds sys events (of_ng s tr) h)
      (λ st k. k)

serve_at-IsTidy :
    (rounds : ℕ) (cfg : Settings) (sys : System) (events k : ℕ) (list : List NgSession) (tr : Trace)
    → All IsTidySession list
    → EachOk AllTidy (serve_at rounds cfg sys events k list tr)
unfolding serve_at
serve_at-IsTidy rounds cfg sys events k [] tr all = tt
serve_at-IsTidy rounds cfg sys events k (s ∷ rest) tr (h, all) =
    EachOk-if AllTidy (length rest == k) _ _
      (EachOk-bind TidyOne AllTidy _ _ (serve_session-IsTidy rounds cfg sys events s tr h)
        (λ r own. (own, all)))
      (EachOk-bind AllTidy AllTidy _ _ (serve_at-IsTidy rounds cfg sys events k rest tr all)
        (λ r others. (h, others)))

-- The sessions that are served.
abbrev pub TidyServed : Served → Type 0
TidyServed r = All IsTidySession r.list

serve_event-IsTidy :
    (rounds : ℕ) (cfg : Settings) (sys : System) (args : Arguments) (sessions maxsessions : ℕ)
    (source : Source) (events : ℕ) (list : List NgSession) (tr : Trace)
    → All IsTidySession list
    → EachOk TidyServed (serve_event rounds cfg sys args sessions maxsessions source events list tr)
unfolding serve_event
serve_event-IsTidy rounds cfg sys args sessions maxsessions Source.pipe events list tr all = all
serve_event-IsTidy rounds cfg sys args sessions maxsessions Source.tun events list tr all =
    EachOk-bind TidyResult TidyServed _ _
      (tun_loop-IsTidy rounds cfg sys args events sessions maxsessions list tr all) (λ r k. k)
serve_event-IsTidy rounds cfg sys args sessions maxsessions (Source.session n) events list tr all =
    EachOk-bind AllTidy TidyServed _ _ (serve_at-IsTidy rounds cfg sys events n list tr all)
      (λ r k. k)

pub serve_events-IsTidy :
    (rounds : ℕ) (cfg : Settings) (sys : System) (args : Arguments) (sessions maxsessions : ℕ)
    (events : List (Source × ℕ)) (list : List NgSession) (tr : Trace)
    → All IsTidySession list
    → EachOk TidyServed (serve_events rounds cfg sys args sessions maxsessions events list tr)
unfolding serve_events
serve_events-IsTidy rounds cfg sys args sessions maxsessions [] list tr all = all
serve_events-IsTidy rounds cfg sys args sessions maxsessions ((source, events) ∷ rest) list tr all =
    EachOk-bind TidyServed TidyServed _ _
      (serve_event-IsTidy rounds cfg sys args sessions maxsessions source events list tr all)
      (λ r k. EachOk-if TidyServed r.stopping _ _ k (
        EachOk-if TidyServed r.error _ _ k
          (serve_events-IsTidy rounds cfg sys args sessions maxsessions rest r.list r.trace k)))
