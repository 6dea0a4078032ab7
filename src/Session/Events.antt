-- ===== src/Session/Events.antt =====
-- What `handle_events` (app/src/main/cpp/session.c) does with the events that epoll reports.
use mobile_injection.Base.{
  ℕ, zero, suc, Bool, true, false, not, ◌&&◌, List, [], ◌∷◌, ◌==◌, length, if◌then◌else◌,
}
use mobile_injection.Base.Run.{◌>>=◌, Run, ok, fault, out_of_fuel}
use mobile_injection.Types.{UdpSession, NgSession, Arguments, epollin, epollerr}
use mobile_injection.System.{System, Trace, Event, Source}
use mobile_injection.Held.{Held, to_ng, of_ng, has_event}
use mobile_injection.Tcp.Socket.{check_tcp_socket}
use mobile_injection.Udp.Socket.{check_udp_socket}
use mobile_injection.Icmp.Socket.{check_icmp_socket}
use mobile_injection.Ip.Handle.{Settings, check_tun}

-- The sessions, the trace, and the variables `stopping` and `error`.
pub record Served : Type 0 where
  pub stopping : Bool
  pub error : Bool
  pub list : List NgSession
  pub trace : Trace

-- `while (!error && is_readable(args->tun))`, for at most `rounds` packets.
unfoldable pub tun_loop :
    (rounds : ℕ)
    → Settings
    → System
    → Arguments
    → (events sessions maxsessions : ℕ) → List NgSession
    → Trace
    → Run (Bool × List NgSession × Trace)
tun_loop zero cfg sys args events sessions maxsessions list tr = out_of_fuel
tun_loop (suc rounds) cfg sys args events sessions maxsessions list tr =
    let tr1 = Event.asked_readable cfg.tun ∷ tr in
    let next = (do
      (good, list1, tr2) ← check_tun cfg sys args events sessions maxsessions list tr1
      let again = tun_loop rounds cfg sys args events sessions maxsessions list1 tr2
      if good then again else ok (true, list1, tr2)) in
    if sys.readable tr cfg.tun then next else ok (false, list, tr1)

-- `while (... is_readable(session->socket))`, for at most `rounds` datagrams.
unfoldable pub udp_loop :
    (rounds fuel : ℕ) → System → (events : ℕ) → Held UdpSession → Run (Held UdpSession)
udp_loop zero fuel sys events st = out_of_fuel
udp_loop (suc rounds) fuel sys events st =
    let st1 = record st { trace = Event.asked_readable st.socket ∷ st.trace } in
    let next = (do
      st2 ← check_udp_socket fuel sys events st1
      udp_loop rounds fuel sys events st2) in
    if not (has_event events epollerr) && has_event events epollin
    then (if sys.readable st.trace st.socket then next else ok st1)
    else ok st

-- "Check downstream" for one session.
unfoldable pub serve_session :
    (rounds : ℕ) → Settings → System → (events : ℕ) → NgSession → Trace → Run (NgSession × Trace)
unfolding udp_loop
serve_session rounds cfg sys events (NgSession.icmp s) tr = do
  st ← check_icmp_socket sys events (of_ng s tr)
  ok (NgSession.icmp (to_ng st), st.trace)
serve_session rounds cfg sys events (NgSession.udp s) tr = do
  st ← udp_loop rounds cfg.fuel sys events (of_ng s tr)
  ok (NgSession.udp (to_ng st), st.trace)
serve_session rounds cfg sys events (NgSession.tcp s) tr = do
  st ← check_tcp_socket rounds sys events (of_ng s tr)
  ok (NgSession.tcp (to_ng st), st.trace)

-- The session with so many behind it is served in its place in the list.
unfoldable pub serve_at :
    (rounds : ℕ)
    → Settings
    → System
    → (events k : ℕ) → List NgSession
    → Trace
    → Run (List NgSession × Trace)
unfolding serve_session
serve_at rounds cfg sys events k [] tr = fault
serve_at rounds cfg sys events k (s ∷ rest) tr =
    let later = (do (list, tr1) ← serve_at rounds cfg sys events k rest tr; ok (s ∷ list, tr1)) in
    let here = (do (s1, tr1) ← serve_session rounds cfg sys events s tr; ok (s1 ∷ rest, tr1)) in
    if length rest == k then here else later

-- One event: the pipe, the tun device, or a session.
unfoldable pub serve_event :
    (rounds : ℕ)
    → Settings
    → System
    → Arguments
    → (sessions maxsessions : ℕ) → Source
    → (events : ℕ) → List NgSession
    → Trace
    → Run Served
unfolding tun_loop serve_at
serve_event rounds cfg sys args sessions maxsessions Source.pipe events list tr =
    ok (record { stopping = true; error = false; list = list; trace = Event.read_pipe ∷ tr })
serve_event rounds cfg sys args sessions maxsessions Source.tun events list tr = do
  (error, list1, tr1) ← tun_loop rounds cfg sys args events sessions maxsessions list tr
  ok (record { stopping = false; error = error; list = list1; trace = tr1 })
serve_event rounds cfg sys args sessions maxsessions (Source.session k) events list tr = do
  (list1, tr1) ← serve_at rounds cfg sys events k list tr
  ok (record { stopping = false; error = false; list = list1; trace = tr1 })

-- The loop over the events, which a stop and an error end.
unfoldable pub serve_events :
    (rounds : ℕ)
    → Settings
    → System
    → Arguments
    → (sessions maxsessions : ℕ) → List (Source × ℕ)
    → List NgSession
    → Trace
    → Run Served
unfolding serve_event
serve_events rounds cfg sys args sessions maxsessions [] list tr =
    ok (record { stopping = false; error = false; list = list; trace = tr })
serve_events rounds cfg sys args sessions maxsessions ((source, events) ∷ rest) list tr = do
  r ← serve_event rounds cfg sys args sessions maxsessions source events list tr
  let next = serve_events rounds cfg sys args sessions maxsessions rest r.list r.trace
  if r.stopping then ok r else if r.error then ok r else next
