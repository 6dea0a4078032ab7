-- ===== src/Tcp/Tidy/Socket.antt =====
-- `check_tcp_socket` (app/src/main/cpp/tcp.c) and the socket of a session that is shut.
use mobile_injection.Base.{
  ℕ, refl, arith, Bool, true, false, ◌||◌, ◌&&◌, List, [], ◌∷◌, inl, inr, Bool-cases, Option, none,
  some, not, ◌+◌, ◌==◌, ltb, sub32, u16, if◌then◌else◌,
}
use mobile_injection.Base.Run.{EachOk, EachOk-bind, EachOk-if, Run, ok, fault, out_of_fuel, ◌>>=◌}
use mobile_injection.Base.Text.{codes}
use mobile_injection.Types.{
  TcpState, state_eq, ConnectSent, connect_eq, Segment, epollin, epollerr, epollout, bytes_eq,
}
use mobile_injection.System.{System, Event, Received}
use mobile_injection.Held.{has_event}
use mobile_injection.Tcp.State.{St, stamp}
use mobile_injection.Tcp.Write.{write_flags, write_ack, write_syn_ack, write_data}
use mobile_injection.Tcp.Window.{get_send_window}
use mobile_injection.Tcp.Monitor.{ready_to_forward}
use mobile_injection.Tcp.Forward.{outgoing, send_segment, advance, after_send, forward_loop}
use mobile_injection.Tcp.Socket.{
  socket_error, drain, proxy_answer, listen_received, listen_input, receive_result, connected,
  acknowledge, receive_eof, receive_data, receive, read_segment, forward, check_tcp_socket,
  set_state, c_string,
}
use mobile_injection.Tcp.Tidy.{
  IsTidy, write_rst-IsTidy, get_receive_buffer-IsTidy, get_receive_window-IsTidy,
}

send_segment-IsTidy :
    (sys : System) (bytes : List ℕ) (q : Segment) (st : St)
    → IsTidy st
    → IsTidy (send_segment sys bytes q st).1
unfolding send_segment
send_segment-IsTidy sys bytes q st h = ground (
  arith,
  write_rst-IsTidy sys (record st { trace = Event.sent st.socket bytes (not q.psh) ∷ st.trace }) h,
)

forward_loop-IsTidy :
    (sys : System) (fwd : Bool) (buffer_size : ℕ) (queue : List Segment) (st : St)
    → IsTidy st
    → EachOk (λ (r : Bool × St). IsTidy r.1) (forward_loop sys fwd buffer_size queue st)
unfolding forward_loop advance
forward_loop-IsTidy sys fwd buffer_size [] st h = h
forward_loop-IsTidy sys fwd buffer_size (q ∷ rest) st h =
    EachOk-if _ (ready_to_forward st.cur.remote_seq buffer_size q) _ _
      (EachOk-bind (λ _. Unit {0}) _ (outgoing st.cur.dest q) _ (any (outgoing st.cur.dest q))
        (λ bytes _.
          sent (send_segment sys bytes q st) (send_segment-IsTidy sys bytes q st h)
            (λ n st2 k. forward_loop-IsTidy sys true (sub32 buffer_size n) rest st2 k)))
      h
  where
    any : (r : Run (List ℕ)) → EachOk (λ _. Unit {0}) r
    any (ok a) = tt
    any fault = tt
    any out_of_fuel = tt

    sent :
        (s : Option ℕ × St)
        → IsTidy s.1
        → ((n : ℕ) (st2 : St)
            → IsTidy st2
            → EachOk
                (λ (r : Bool × St). IsTidy r.1)
                (forward_loop sys true (sub32 buffer_size n) rest st2))
        → EachOk
            (λ (r : Bool × St). IsTidy r.1)
            (after_send fwd q rest
              (λ n st2. forward_loop sys true (sub32 buffer_size n) rest st2)
              s)
    sent (none, st1) k next = k
    sent (some n, st1) k next =
        EachOk-if _ (q.len == u16 (q.sent + n)) _ _ (next n (advance n q rest st1) k) k

abbrev TidyRun : Run St → Type 0
TidyRun r = EachOk IsTidy r

socket_error-IsTidy : (sys : System) (st : St) → IsTidy st → IsTidy (socket_error sys st)
unfolding socket_error
socket_error-IsTidy sys st h = write_rst-IsTidy sys _ h

-- A session that has just been connected is in TCP_SYN_RECV, or was reset.
proxy_answer-IsTidy :
    (rounds : ℕ) (sys : System) (answer : List ℕ) (st : St)
    → IsTidy st
    → TidyRun (proxy_answer rounds sys answer st)
unfolding proxy_answer
proxy_answer-IsTidy rounds sys answer st h =
    EachOk-if IsTidy
      (bytes_eq (c_string answer) (codes "HTTP/1.0 200")
        || bytes_eq (c_string answer) (codes "HTTP/1.1 200"))
      _ _ (answered (drain rounds sys _)) (write_rst-IsTidy sys st h)
  where
    answered : (r : Run St) → TidyRun (r >>= λ st1. ok (set_state TcpState.syn_recv st1))
    answered (ok a) = λ e. cc
    answered fault = tt
    answered out_of_fuel = tt

listen_received-IsTidy :
    (rounds : ℕ) (sys : System) (r : Received) (st : St)
    → IsTidy st
    → TidyRun (listen_received rounds sys r st)
unfolding listen_received
listen_received-IsTidy rounds sys (Received.bytes answer) st h =
    EachOk-if IsTidy (connect_eq st.cur.connect_sent ConnectSent.connect_is_sent) _ _
      (proxy_answer-IsTidy rounds sys answer st h) h
listen_received-IsTidy rounds sys _ st h = write_rst-IsTidy sys st h

connected-IsTidy : (sys : System) (st : St) → IsTidy st → IsTidy (connected sys st)
unfolding connected write_syn_ack write_flags
connected-IsTidy sys st h = ground arith

acknowledge-IsTidy :
    (sys : System) (fwd : Bool) (st : St) → IsTidy st → IsTidy (acknowledge sys fwd st)
unfolding acknowledge write_ack write_flags
acknowledge-IsTidy sys fwd st h = ground (arith, get_receive_window-IsTidy sys st h)

receive_eof-IsTidy : (sys : System) (st : St) → IsTidy (receive_eof sys st)
unfolding receive_eof
receive_eof-IsTidy sys st e = refl

receive_data-IsTidy :
    (sys : System) (bytes : List ℕ) (st : St) → IsTidy st → IsTidy (receive_data sys bytes st)
unfolding receive_data write_data write_flags
receive_data-IsTidy sys bytes st h = ground arith

receive_result-IsTidy :
    (sys : System) (r : Received) (st : St) → IsTidy st → IsTidy (receive_result sys r st)
unfolding receive_result
receive_result-IsTidy sys (Received.bytes []) st h = receive_eof-IsTidy sys st
receive_result-IsTidy sys (Received.bytes (b ∷ bs)) st h = receive_data-IsTidy sys (b ∷ bs) st h
receive_result-IsTidy sys Received.recv_again st h = h
receive_result-IsTidy sys Received.recv_failed st h = write_rst-IsTidy sys st h

listen_input-IsTidy :
    (rounds : ℕ) (sys : System) (st : St) → IsTidy st → TidyRun (listen_input rounds sys st)
unfolding listen_input
listen_input-IsTidy rounds sys st h =
    listen_received-IsTidy rounds sys (sys.recv st.trace st.socket 12) _ h

read_segment-IsTidy :
    (sys : System) (window : ℕ) (st : St) → IsTidy st → IsTidy (read_segment sys window st)
unfolding read_segment
read_segment-IsTidy sys window st h =
    let size = if ltb st.cur.mss window then st.cur.mss else window in
    let st1 = stamp sys st in
    receive_result-IsTidy sys (sys.recv st1.trace st1.socket size)
      (record st1 { trace = Event.received st1.socket size ∷ st1.trace }) h

receive-IsTidy : (sys : System) (events : ℕ) (st : St) → IsTidy st → IsTidy (receive sys events st)
unfolding receive
receive-IsTidy sys events st h =
    elim (Bool-cases (
      (state_eq st.cur.state TcpState.established || state_eq st.cur.state TcpState.close_wait)
      && (has_event events epollin && ltb 0 (get_send_window st.cur)))) [
        | inl reads ↦ rw reads (read_segment-IsTidy sys (get_send_window st.cur) st h)
        | inr other ↦ rw other h
      ]

-- If a session in TCP_FIN_WAIT1, TCP_LAST_ACK or TCP_CLOSE holds no socket, this is so in every state that
-- `check_tcp_socket` returns.
pub check_tcp_socket-IsTidy :
    (rounds : ℕ) (sys : System) (events : ℕ) (st : St)
    → IsTidy st
    → EachOk IsTidy (check_tcp_socket rounds sys events st)
unfolding check_tcp_socket forward
check_tcp_socket-IsTidy rounds sys events st h =
    EachOk-if IsTidy (has_event events epollerr) _ _ (socket_error-IsTidy sys st h) (
      EachOk-if IsTidy (state_eq st.cur.state TcpState.listen) _ _
        (EachOk-if IsTidy (has_event events epollin) _ _ (listen_input-IsTidy rounds sys st h)
          (connected-IsTidy sys st h))
        (EachOk-bind (λ (r : Bool × St). IsTidy r.1) IsTidy _ _
          (EachOk-if _ (has_event events epollout) _ _
            (forward_loop-IsTidy sys false _ _ _ (get_receive_buffer-IsTidy sys st h)) h)
          (λ r k. receive-IsTidy sys events _ (acknowledge-IsTidy sys r.0 r.1 k))))
