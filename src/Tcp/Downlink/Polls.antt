-- ===== src/Tcp/Downlink/Polls.antt =====
-- `check_tcp_socket` (app/src/main/cpp/tcp.c) as a whole, seen by the client.
use mobile_injection.Base.{
  ℕ, ◌+◌, ◌-◌, ◌≡◌, arith, Bool, true, false, ◌||◌, ◌&&◌, List, [], ◌∷◌, inl, inr, Bool-cases,
  Option, none, some, not, ◌==◌, ltb, add32, sub32, u16, is_neg, if◌then◌else◌,
}
use mobile_injection.Base.Run.{EachOk, EachOk->>=, EachOk-bind, EachOk-if, Run}
use mobile_injection.Types.{TcpState, state_eq, Segment, epollerr, epollout}
use mobile_injection.System.{System, Event, Sent}
use mobile_injection.Held.{has_event}
use mobile_injection.Tcp.State.{St, stamp}
use mobile_injection.Tcp.Write.{write_flags, write_ack, write_rst, ack_flags}
use mobile_injection.Tcp.Window.{get_receive_buffer, get_receive_window}
use mobile_injection.Tcp.Monitor.{ready_to_forward}
use mobile_injection.Tcp.Forward.{
  outgoing, send_segment, advance, after_send, forward_loop, cap_sent, sent_value,
}
use mobile_injection.Tcp.Socket.{socket_error, acknowledge, forward, check_tcp_socket}
use mobile_injection.Tcp.Downlink.{client, came}
use mobile_injection.Tcp.Downlink.Follows.{
  Follows, Follows-if, write_rst-Follows, write_ack-Follows,
}
use mobile_injection.Tcp.Downlink.Reads.{receive-Follows}

module _ (sys : System) (version isn : ℕ) where
  abbrev P : St → Type 0
  P st = Follows sys version isn st

  -- The calls that are not recv and not a write into the tun device.
  stamp-Follows : (st : St) → P st → P (stamp sys st)
  unfolding client came
  stamp-Follows st f = f

  get_receive_buffer-Follows : (st : St) → P st → P (get_receive_buffer sys st).1
  unfolding get_receive_buffer client came
  get_receive_buffer-Follows st f = elim (Bool-cases (is_neg st.socket)) [
    | inl e ↦ rw e f
    | inr e ↦ rw e f
  ]

  either-Follows : (b : Bool) (x y : Option ℕ × St) → P x.1 → P y.1 → P (if b then x else y).1
  either-Follows true x y f g = f
  either-Follows false x y f g = g

  failed-Follows :
      (res : Sent) (st st' : St)
      → P st
      → P st'
      → let r : Option ℕ × St = elim res [ Sent.send_again ↦ (none, st) | _ ↦ (none, st') ] in P r.1
  failed-Follows (Sent.count n) st st' f g = g
  failed-Follows Sent.send_again st st' f g = f
  failed-Follows Sent.send_failed st st' f g = g

  send_segment-Follows :
      (bytes : List ℕ) (q : Segment) (st : St) → P st → P (send_segment sys bytes q st).1
  unfolding send_segment client came
  send_segment-Follows bytes q st f =
      let st1 : St = record st { trace = Event.sent st.socket bytes (not q.psh) ∷ st.trace } in
      let res = sys.send st.trace st.socket bytes (not q.psh) in
      either-Follows (is_neg (cap_sent (sent_value res) (q.len - q.sent))) _ (_, st1)
        (failed-Follows res st1 (write_rst sys st1) f (write_rst-Follows sys version isn st1 f)) f

  advance-Follows :
      (n : ℕ) (q : Segment) (rest : List Segment) (st : St) → P st → P (advance n q rest st)
  unfolding advance
  advance-Follows n q rest st (h, f) = ((h.0, ((h.1.0.0, omega arith), h.1.1)), f)

  after_send-Follows :
      (fwd : Bool) (q : Segment) (rest : List Segment) (next : ℕ → St → Run (Bool × St))
      → ((n : ℕ) (st : St) → P st → EachOk (λ (r : Bool × St). P r.1) (next n st))
      → (s : Option ℕ × St) → P s.1
      → EachOk (λ (r : Bool × St). P r.1) (after_send fwd q rest next s)
  unfolding after_send
  after_send-Follows fwd q rest next goes_on (none, st1) f = f
  after_send-Follows fwd q rest next goes_on (some n, st1) f =
      let f2 = advance-Follows n q rest st1 f in
      EachOk-if _ (q.len == u16 (q.sent + n)) _ _ (goes_on n (advance n q rest st1) f2) f2

  forward_loop-Follows :
      (fwd : Bool) (buffer_size : ℕ) (queue : List Segment) (st : St)
      → P st
      → EachOk (λ (r : Bool × St). P r.1) (forward_loop sys fwd buffer_size queue st)
  unfolding forward_loop
  forward_loop-Follows fwd buffer_size [] st f = f
  forward_loop-Follows fwd buffer_size (q ∷ rest) st f =
      EachOk-if _ (ready_to_forward st.cur.remote_seq buffer_size q) _ _
        (EachOk->>= _ (outgoing st.cur.dest q) _ (λ bytes.
          after_send-Follows fwd q rest _
            (λ n st2 g. forward_loop-Follows true (sub32 buffer_size n) rest st2 g)
            (send_segment sys bytes q st) (send_segment-Follows bytes q st f)))
        f

  get_receive_window-Follows : (st : St) → P st → P (get_receive_window sys st).1
  unfolding get_receive_window
  get_receive_window-Follows st f = get_receive_buffer-Follows st f

  counted_fin-Follows :
      (b : Bool) (st : St)
      → P st
      → P (
          if b
          then record st { cur = record st.cur { remote_seq = add32 st.cur.remote_seq 1 } }
          else st)
  counted_fin-Follows true st (h, f) = ((h.0, ((h.1.0.0, omega arith), h.1.1)), f)
  counted_fin-Follows false st f = f

  acknowledge-Follows : (fwd : Bool) (st : St) → P st → P (acknowledge sys fwd st)
  unfolding acknowledge write_ack
  acknowledge-Follows fwd st f =
      let (window, st1) = get_receive_window sys st in
      let f1 : P st1 = get_receive_window-Follows st f in
      let st2 : St = record st1 { cur = record st1.cur { recv_window = window } } in
      let queue_empty : Bool = elim st2.cur.forward [ [] ↦ true | q ∷ rest ↦ false ] in
      let counts = fwd && queue_empty && state_eq st2.cur.state TcpState.close_wait in
      let st3 : St =
        if counts
        then record st2 { cur = record st2.cur { remote_seq = add32 st2.cur.remote_seq 1 } }
        else st2 in
      let r = write_flags sys [] ack_flags st3 in
      let f4 = write_ack-Follows sys version isn st3 (counted_fin-Follows counts st2 f1) in
      Follows-if sys version isn (fwd || (st1.cur.recv_window == 0 && ltb 0 window))
        (if is_neg r.0 then r.1 else stamp sys r.1) st2
        (Follows-if sys version isn (is_neg r.0) r.1 (stamp sys r.1) f4 (stamp-Follows r.1 f4)) f1

  socket_error-Follows : (st : St) → P st → P (socket_error sys st)
  unfolding socket_error client came
  socket_error-Follows st f =
      let st1 = stamp sys st in
      write_rst-Follows sys version isn
        (record st1 { trace = Event.asked_error st1.socket ∷ st1.trace }) f

-- Whatever the system answers, every state that `check_tcp_socket` returns for a session past TCP_LISTEN
-- follows the socket as the one before does.
pub check_tcp_socket-Follows :
    (sys : System) (version isn rounds events : ℕ) (st : St)
    → state_eq st.cur.state TcpState.listen ≡ false
    → Follows sys version isn st
    → EachOk (λ st'. Follows sys version isn st') (check_tcp_socket rounds sys events st)
unfolding check_tcp_socket forward
check_tcp_socket-Follows sys version isn rounds events st started f =
    EachOk-if _ (has_event events epollerr) _ _ (socket_error-Follows sys version isn st f) (
      rw started (
        EachOk-bind (λ (r : Bool × St). Follows sys version isn r.1) _ _ _
          (EachOk-if _ (has_event events epollout) _ _
            (forward_loop-Follows sys version isn false _ _ _
              (get_receive_buffer-Follows sys version isn st f))
            f)
          (λ r k.
            receive-Follows sys version isn events _
              (acknowledge-Follows sys version isn r.0 r.1 k))))
