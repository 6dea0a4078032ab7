-- ===== src/Tcp/Window/Sent.antt =====
-- What is read from a socket stays within the client's window: "Check socket read" of
-- app/src/main/cpp/tcp.c.
use mobile_injection.Base.{
  ℕ, ◌+◌, ◌<◌, ◌≤◌, ◌≡◌, refl, sym, arith, Bool, true, false, ◌&&◌, ◌||◌, List, [], ◌∷◌, is_pos,
  is_neg, length, add32, sub32, ltb, if◌then◌else◌,
}
use mobile_injection.Types.{TcpSession, TcpState, Segment, state_eq, epollin}
use mobile_injection.System.{System, Event, Received, RecvBounded}
use mobile_injection.Held.{close_socket, has_event}
use mobile_injection.Tcp.State.{St, stamp}
use mobile_injection.Util.Serial.{compare_u32}
use mobile_injection.Tcp.Write.{write_flags, write_rst, write_data, write_fin_ack}
use mobile_injection.Tcp.Window.{get_send_window}
use mobile_injection.Tcp.Socket.{
  receive_eof, receive_data, receive_result, read_segment, receive, set_state,
}

-- The bytes that are sent and not acknowledged.
abbrev pub in_flight : TcpSession → ℕ
in_flight cur = sub32 cur.local_seq cur.acked

abbrev pub IsInWindow : St → Type 0
IsInWindow st = in_flight st.cur ≤ st.cur.send_window

-- `acked` compares as not after `local_seq`.
abbrev pub IsBehind : TcpSession → Type 0
IsBehind cur = is_pos (compare_u32 cur.acked cur.local_seq) ≡ false

in_flight-add :
    (local acked n window : ℕ)
    → sub32 local acked + n ≤ window
    → sub32 (add32 local n) acked ≤ window
in_flight-add local acked n window h = omega arith

get_send_window-room :
    (cur : TcpSession)
    → IsBehind cur
    → 0 < get_send_window cur
    → in_flight cur + get_send_window cur ≤ cur.send_window
unfolding get_send_window
get_send_window-room cur h k = ground (arith, h)

readable_lem : (a b : Bool) (window : ℕ) → a && (b && ltb 0 window) ≡ true → 0 < window
readable_lem a b window h = ground arith

receive_data-IsInWindow :
    (sys : System) (bytes : List ℕ) (st : St)
    → IsInWindow st
    → in_flight st.cur + length bytes ≤ st.cur.send_window
    → IsInWindow (receive_data sys bytes st)
unfolding receive_data write_data write_flags
receive_data-IsInWindow sys bytes st h k =
    let next = in_flight-add st.cur.local_seq st.cur.acked (length bytes) st.cur.send_window k in
    ground (arith, next)

write_rst-IsInWindow : (sys : System) (st : St) → IsInWindow st → IsInWindow (write_rst sys st)
unfolding write_rst
write_rst-IsInWindow sys st h = ground arith

IsInWindow-if :
    (b : Bool) (st st' : St) → IsInWindow st → IsInWindow st' → IsInWindow (if b then st else st')
IsInWindow-if true st st' h k = h
IsInWindow-if false st st' h k = k

IsInWindow-test :
    (b : Bool) (st st' : St)
    → (b ≡ true → IsInWindow st)
    → IsInWindow st'
    → IsInWindow (if b then st else st')
IsInWindow-test true st st' h k = h refl
IsInWindow-test false st st' h k = k

-- The sequence numbers and the window do not depend on the state.
IsInWindow-set_state :
    (state : TcpState) (st : St) → IsInWindow st → IsInWindow (set_state state st)
IsInWindow-set_state state st h = h

IsInWindow-closed :
    (queue : List Segment) (st st' : St)
    → IsInWindow st
    → IsInWindow st'
    → IsInWindow (close_socket (elim queue [ [] ↦ st | q ∷ rest ↦ st' ]))
IsInWindow-closed [] st st' h k = h
IsInWindow-closed (q ∷ rest) st st' h k = k

-- The FIN counts as one byte.
fin-IsInWindow :
    (sys : System) (st : St)
    → IsInWindow st
    → in_flight st.cur + 1 ≤ st.cur.send_window
    → let r = write_fin_ack sys st in
      IsInWindow (
        if is_neg r.0
        then r.1
        else record r.1 { cur = record r.1.cur { local_seq = add32 r.1.cur.local_seq 1 } })
unfolding write_fin_ack write_flags
fin-IsInWindow sys st h k =
    let next = in_flight-add st.cur.local_seq st.cur.acked 1 st.cur.send_window k in
    ground (arith, next)

receive_eof-IsInWindow :
    (sys : System) (st : St)
    → IsInWindow st
    → in_flight st.cur + 1 ≤ st.cur.send_window
    → IsInWindow (receive_eof sys st)
unfolding receive_eof
receive_eof-IsInWindow sys st h k =
    let fin = fin-IsInWindow sys st h k in
    let r = write_fin_ack sys st in
    let st2 : St =
      if is_neg r.0
      then r.1
      else record r.1 { cur = record r.1.cur { local_seq = add32 r.1.cur.local_seq 1 } } in
    let waits = state_eq st2.cur.state TcpState.close_wait in
    let last = set_state TcpState.last_ack st2 in
    IsInWindow-closed st.cur.forward _ (write_rst sys st)
      (IsInWindow-if (state_eq st2.cur.state TcpState.established)
        (set_state TcpState.fin_wait1 st2) (if waits then last else st2) fin
        (IsInWindow-if waits last st2 fin fin))
      (write_rst-IsInWindow sys st h)

receive_result-IsInWindow :
    (sys : System) (r : Received) (st : St)
    → IsInWindow st
    → in_flight st.cur + 1 ≤ st.cur.send_window
    → ((bytes : List ℕ)
        → r ≡ Received.bytes bytes
        → in_flight st.cur + length bytes ≤ st.cur.send_window)
    → IsInWindow (receive_result sys r st)
unfolding receive_result
receive_result-IsInWindow sys (Received.bytes []) st h k l = receive_eof-IsInWindow sys st h k
receive_result-IsInWindow sys (Received.bytes (b ∷ bs)) st h k l =
    receive_data-IsInWindow sys (b ∷ bs) st h (l (b ∷ bs) refl)
receive_result-IsInWindow sys Received.recv_again st h k l = h
receive_result-IsInWindow sys Received.recv_failed st h k l = write_rst-IsInWindow sys st h

-- If recv gives no more than is asked for and `acked` compares as not after `local_seq`: when no more than the
-- client's window is sent and not acknowledged, this is so after "Check socket read" too, whatever
-- the socket gives, a FIN included.
pub receive-IsInWindow :
    (sys : System)
    → RecvBounded sys
    → (events : ℕ) (st : St) → IsBehind st.cur
    → IsInWindow st
    → IsInWindow (receive sys events st)
unfolding receive read_segment
receive-IsInWindow sys bounded events st behind h =
    let window = get_send_window st.cur in
    let size = if ltb st.cur.mss window then st.cur.mss else window in
    let st1 = stamp sys st in
    let st2 : St = record st1 { trace = Event.received st1.socket size ∷ st1.trace } in
    let open_state =
      state_eq st.cur.state TcpState.established || state_eq st.cur.state TcpState.close_wait in
    let readable = has_event events epollin && ltb 0 window in
    IsInWindow-test (open_state && readable) _ st
      (λ goes.
        let positive = readable_lem open_state (has_event events epollin) window goes in
        let room = get_send_window-room st.cur behind positive in
        let small : size ≤ window = ground arith in
        receive_result-IsInWindow sys (sys.recv st1.trace st1.socket size) st2 h
          (omega (arith, room, positive))
          (λ bytes e. omega (arith, bounded st1.trace st1.socket size bytes (sym e), small, room)))
      h
