-- ===== src/Tcp/Socket.antt =====
-- `check_tcp_socket` of app/src/main/cpp/tcp.c: what a session does when its socket is ready.
use mobile_injection.Base.{
  ℕ, zero, suc, ◌+◌, Bool, true, false, ◌&&◌, ◌||◌, List, [], ◌∷◌, is_neg, ltb, ◌==◌, length, add32,
  if◌then◌else◌,
}
use mobile_injection.Base.Run.{◌>>=◌, Run, ok, out_of_fuel}
use mobile_injection.Base.Text.{codes}
use mobile_injection.Types.{
  TcpState, state_eq, ConnectSent, connect_eq, bytes_eq, epollin, epollout, epollerr,
}
use mobile_injection.System.{System, Event, Received}
use mobile_injection.Tcp.State.{St, stamp}
use mobile_injection.Tcp.Write.{write_rst, write_ack, write_syn_ack, write_data, write_fin_ack}
use mobile_injection.Tcp.Window.{get_send_window, get_receive_buffer, get_receive_window}
use mobile_injection.Held.{has_event, close_socket}
use mobile_injection.Tcp.Forward.{forward_loop}

-- The C string at the front of a buffer that ends with a NUL.
unfoldable pub c_string : List ℕ → List ℕ
c_string [] = []
c_string (c ∷ rest) = let tail = c ∷ c_string rest in if c == 0 then [] else tail

abbrev pub set_state : TcpState → St → St
set_state state st = record st { cur = record st.cur { state = state } }

-- An error event of the socket: the error is read for the log, and the client gets a reset.
unfoldable pub socket_error : System → St → St
socket_error sys st =
    let st1 = stamp sys st in
    write_rst sys (record st1 { trace = Event.asked_error st1.socket ∷ st1.trace })

-- `while (recv(s->socket, buffer, sizeof(buffer), 0) > 0) {}` for at most `rounds` calls.
unfoldable pub drain : (rounds : ℕ) → System → St → Run St
drain zero sys st = out_of_fuel
drain (suc rounds) sys st =
    let st1 = record st { trace = Event.received st.socket 512 ∷ st.trace } in
    let next = drain rounds sys st1 in
    elim (sys.recv st.trace st.socket 512) [
      | Received.bytes [] ↦ ok st1
      | Received.bytes (b ∷ bs) ↦ next
      | _ ↦ ok st1
    ]

-- The answer of the proxy to CONNECT.
unfoldable pub proxy_answer : (rounds : ℕ) → System → List ℕ → St → Run St
unfolding drain c_string
proxy_answer rounds sys answer st =
    let text = c_string answer in
    let accepted = (do
      st1 ←
          drain rounds sys
            (record st { cur = record st.cur { connect_sent = ConnectSent.connect_established } })
      ok (set_state TcpState.syn_recv st1)) in
    if bytes_eq text (codes "HTTP/1.0 200") || bytes_eq text (codes "HTTP/1.1 200")
    then accepted
    else ok (write_rst sys st)

-- "Check socket connect": what recv returns in the state TCP_LISTEN.
unfoldable pub listen_received : (rounds : ℕ) → System → Received → St → Run St
unfolding proxy_answer
listen_received rounds sys (Received.bytes answer) st =
    let checked = proxy_answer rounds sys answer st in
    if connect_eq st.cur.connect_sent ConnectSent.connect_is_sent then checked else ok st
listen_received rounds sys _ st = ok (write_rst sys st)

unfoldable pub listen_input : (rounds : ℕ) → System → St → Run St
unfolding listen_received
listen_input rounds sys st =
    listen_received rounds sys (sys.recv st.trace st.socket 12)
      (record st { trace = Event.received st.socket 12 ∷ st.trace })

-- The same with no input: the socket is connected, and the client's SYN is answered.
unfoldable pub connected : System → St → St
connected sys st =
    let st1 = record st { cur = record st.cur { remote_seq = add32 st.cur.remote_seq 1 } } in
    let (res, st2) = write_syn_ack sys st1 in
    let st3 = stamp sys st2 in
    if is_neg res then st2 else record st3 {
      cur = record st3.cur { local_seq = add32 st3.cur.local_seq 1; state = TcpState.syn_recv };
    }

-- "Get receive window" and "Acknowledge forwarded data".
unfoldable pub acknowledge : System → (fwd : Bool) → St → St
acknowledge sys fwd st =
    let (window, st1) = get_receive_window sys st in
    let prev = st1.cur.recv_window in
    let st2 = record st1 { cur = record st1.cur { recv_window = window } } in
    let queue_empty : Bool = elim st2.cur.forward [ [] ↦ true | q ∷ rest ↦ false ] in
    let st3 =
      if fwd && queue_empty && state_eq st2.cur.state TcpState.close_wait
      then record st2 { cur = record st2.cur { remote_seq = add32 st2.cur.remote_seq 1 } }
      else st2 in
    let (res, st4) = write_ack sys st3 in
    if fwd || (prev == 0 && ltb 0 window) then (if is_neg res then st4 else stamp sys st4) else st2

-- The end of the stream from the socket: a FIN, or a reset if data is still queued.
unfoldable pub receive_eof : System → St → St
receive_eof sys st =
    let (res, st1) = write_fin_ack sys st in
    let st2 =
      if is_neg res
      then st1
      else record st1 { cur = record st1.cur { local_seq = add32 st1.cur.local_seq 1 } } in
    let st3 =
      if state_eq st2.cur.state TcpState.established
      then set_state TcpState.fin_wait1 st2
      else if state_eq st2.cur.state TcpState.close_wait
      then set_state TcpState.last_ack st2
      else st2 in
    close_socket (elim st.cur.forward [ [] ↦ st3 | q ∷ rest ↦ write_rst sys st ])

-- "Socket read data": the bytes go to the client.
unfoldable pub receive_data : System → List ℕ → St → St
receive_data sys bytes st =
    let st1 = record st { cur = record st.cur { received = st.cur.received + length bytes } } in
    let (res, st2) = write_data sys bytes st1 in
    if is_neg res
    then st2
    else record st2 { cur = record st2.cur { local_seq = add32 st2.cur.local_seq (length bytes) } }

-- What recv returns in "Check socket read".
unfoldable pub receive_result : System → Received → St → St
unfolding receive_eof receive_data
receive_result sys (Received.bytes []) st = receive_eof sys st
receive_result sys (Received.bytes (b ∷ bs)) st = receive_data sys (b ∷ bs) st
receive_result sys Received.recv_again st = st
receive_result sys Received.recv_failed st = write_rst sys st

-- At most one segment is read, within the client's window.
unfoldable pub read_segment : System → (window : ℕ) → St → St
unfolding receive_result
read_segment sys window st =
    let size = if ltb st.cur.mss window then st.cur.mss else window in
    let st1 = stamp sys st in
    let st2 = record st1 { trace = Event.received st1.socket size ∷ st1.trace } in
    receive_result sys (sys.recv st1.trace st1.socket size) st2

-- "Check socket read".
unfoldable pub receive : System → (events : ℕ) → St → St
unfolding read_segment
receive sys events st =
    let window = get_send_window st.cur in
    if (state_eq st.cur.state TcpState.established || state_eq st.cur.state TcpState.close_wait)
      && (has_event events epollin && ltb 0 window)
    then read_segment sys window st
    else st

-- "Forward data", if the socket can be written to.
unfoldable pub forward : System → (events : ℕ) → St → Run (Bool × St)
forward sys events st =
    let (buffer_size, st1) = get_receive_buffer sys st in
    let loop = forward_loop sys false buffer_size st1.cur.forward st1 in
    if has_event events epollout then loop else ok (false, st)

-- `rounds` bounds the calls of recv that empty the proxy's answer.
unfoldable pub check_tcp_socket : (rounds : ℕ) → System → (events : ℕ) → St → Run St
unfolding listen_input connected forward acknowledge receive socket_error
check_tcp_socket rounds sys events st =
    let listening =
      if has_event events epollin then listen_input rounds sys st else ok (connected sys st) in
    let running = (do
      (fwd, st1) ← forward sys events st
      ok (receive sys events (acknowledge sys fwd st1))) in
    if has_event events epollerr
    then ok (socket_error sys st)
    else if state_eq st.cur.state TcpState.listen
    then listening
    else running
