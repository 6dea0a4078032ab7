-- ===== src/Tcp/Monitor.antt =====
-- `monitor_tcp_session` of app/src/main/cpp/tcp.c: which epoll events a session waits for.
use mobile_injection.Base.{
  ℕ, ◌+◌, Bool, true, false, ◌&&◌, ◌||◌, [], ◌∷◌, ltb, ◌==◌, add32, sub32, if◌then◌else◌,
}
use mobile_injection.Types.{
  TcpState, state_eq, ConnectSent, connect_eq, Segment, epollin, epollout, epollerr,
}
use mobile_injection.System.{System, Event}
use mobile_injection.Tcp.State.{St}
use mobile_injection.Tcp.Write.{write_ack}
use mobile_injection.Tcp.Window.{get_send_window, get_receive_buffer}

-- The events that are asked for, and whether the caller is to look again soon.
pub record Watch : Type 0 where
  pub input : Bool
  pub output : Bool
  pub recheck : Bool

abbrev pub events_of : Watch → ℕ
events_of w = epollerr + (if w.input then epollin else 0) + (if w.output then epollout else 0)

-- ms - last_keep_alive > EPOLL_MIN_CHECK.
abbrev pub keep_alive_due : (ms last : ℕ) → Bool
keep_alive_due ms last = ltb (last + 100) ms

-- A keep alive acknowledges one byte less than was received, so that the client answers with its
-- window.
unfoldable pub keep_alive : System → St → St
keep_alive sys st =
    let ms = sys.ms st.trace in
    let st1 = record st { trace = Event.asked_ms ∷ st.trace } in
    let st2 = record st1 {
      cur = record st1.cur { last_keep_alive = ms; remote_seq = sub32 st1.cur.remote_seq 1 };
    } in
    let (res, st3) = write_ack sys st2 in
    if keep_alive_due ms st.cur.last_keep_alive
    then record st3 { cur = record st3.cur { remote_seq = add32 st3.cur.remote_seq 1 } }
    else st1

-- "Check for incoming data".
unfoldable pub watch_input : System → St → Watch × St
watch_input sys st =
    if ltb 0 (get_send_window st.cur)
    then (record { input = true; output = false; recheck = false }, st)
    else (record { input = false; output = false; recheck = true }, keep_alive sys st)

-- The head of the queue is what the socket is to get next, and fits its buffer.
abbrev pub ready_to_forward : (remote_seq buffer_size : ℕ) → Segment → Bool
ready_to_forward remote_seq buffer_size q =
    add32 q.seq q.sent == remote_seq && ltb (sub32 q.len q.sent) buffer_size

-- "Check for outgoing data".
unfoldable pub watch_output : System → Watch → St → Watch × St
watch_output sys w st = elim st.cur.forward [
  | [] ↦ (w, st)
  | q ∷ rest ↦
      let (buffer_size, st1) = get_receive_buffer sys st in
      if ready_to_forward st1.cur.remote_seq buffer_size q
      then (record w { output = true }, st1)
      else (record w { recheck = true }, st1)
]

unfoldable pub watch : System → St → Watch × St
unfolding watch_input watch_output
watch sys st =
    let (w, st1) = watch_input sys st in
    if state_eq st.cur.state TcpState.listen
    then (if connect_eq st.cur.connect_sent ConnectSent.connect_is_sent && st.cur.dest == 443
        then (record { input = true; output = false; recheck = false }, st)
        else (record { input = false; output = true; recheck = false }, st))
    else if state_eq st.cur.state TcpState.established || state_eq st.cur.state TcpState.close_wait
    then watch_output sys w st1
    else (record { input = false; output = false; recheck = false }, st)

-- Changed events are passed to epoll; an error closes the session.
unfoldable pub monitor_tcp_session : System → St → Bool × St
monitor_tcp_session sys st =
    let (w, st1) = watch sys st in
    let events = events_of w in
    let st2 = record st1 {
      events = events;
      trace = Event.modified st1.socket events ∷ st1.trace;
    } in
    (
      w.recheck,
      if events == st1.events
          then st1
          else if sys.epoll_mod_fails st1.trace st1.socket events
          then record st2 { cur = record st2.cur { state = TcpState.closing } }
          else st2,
    )
