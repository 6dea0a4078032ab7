-- ===== src/Tcp/Segment.antt =====
-- "Session found" of `handle_tcp` (app/src/main/cpp/tcp.c): a segment of the client for a session that
-- is past the CONNECT.
pub mod Moves
use mobile_injection.Base.{
  ℕ, ◌*◌, ◌^◌, not, ◌||◌, List, [], ◌∷◌, is_neg, is_pos, ◌==◌, add32, u32, if◌then◌else◌,
}
use mobile_injection.Util.Serial.{compare_u32}
use mobile_injection.Types.{TcpState, state_eq}
use mobile_injection.System.{System, Event}
use mobile_injection.Net.Decode.{TcpHeader}
use mobile_injection.Tcp.State.{St, stamp}
use mobile_injection.Tcp.Write.{write_rst, write_ack}
use mobile_injection.Tcp.Queue.{queue_tcp}
use mobile_injection.Tcp.Timeout.{is_closed}
use mobile_injection.Tcp.Socket.{set_state}

-- remote_seq++ for the client's FIN, and an ACK: the new state if the ACK could be written.
unfoldable pub acknowledge_fin : System → TcpState → St → St
acknowledge_fin sys state st =
    let st1 = record st { cur = record st.cur { remote_seq = add32 st.cur.remote_seq 1 } } in
    let (res, st2) = write_ack sys st1 in if is_neg res then st2 else set_state state st2

-- A FIN with the expected acknowledgement.
unfoldable pub receive_fin : System → St → St
unfolding acknowledge_fin
receive_fin sys st =
    if state_eq st.cur.state TcpState.established
    then elim st.cur.forward [
      | [] ↦ acknowledge_fin sys TcpState.close_wait st
      | q ∷ rest ↦ set_state TcpState.close_wait st
    ]
    else if state_eq st.cur.state TcpState.fin_wait1
    then acknowledge_fin sys TcpState.close st
    else st

-- An ACK of everything that was sent.
unfoldable pub receive_ack : (ack : ℕ) → St → St
receive_ack ack st =
    let st1 = record st { cur = record st.cur { acked = ack } } in
    if state_eq st.cur.state TcpState.syn_recv
    then set_state TcpState.established st1
    else if state_eq st.cur.state TcpState.last_ack
    then set_state TcpState.closing st1
    else st1

-- A segment that acknowledges something else than local_seq: a keep alive, an earlier ACK, or one of
-- the future.
unfoldable pub receive_other_ack : System → (ack : ℕ) → St → St
receive_other_ack sys ack st =
    if add32 ack 1 == st.cur.local_seq
    then (if state_eq st.cur.state TcpState.established
        then record st { trace = Event.kept_alive st.socket ∷ st.trace }
        else st)
    else if is_neg (compare_u32 ack st.cur.local_seq)
    then (if is_pos (compare_u32 ack st.cur.acked)
        then record st { cur = record st.cur { acked = ack } }
        else st)
    else write_rst sys st

-- The flags of a segment, once its data is queued.
unfoldable pub receive_flags : System → TcpHeader → St → St
unfolding receive_fin receive_ack receive_other_ack
receive_flags sys hdr st =
    if hdr.rst
    then set_state TcpState.closing st
    else if not hdr.ack || hdr.ack_seq == st.cur.local_seq
    then (if hdr.syn
        then st
        else if hdr.fin
        then receive_fin sys st
        else if hdr.ack
        then receive_ack hdr.ack_seq st
        else st)
    else receive_other_ack sys hdr.ack_seq st

-- "Queue data to forward"; data that comes when one side is closed is answered with a reset.
unfoldable pub receive_data : System → TcpHeader → (bytes : List ℕ) → St → St
unfolding receive_flags
receive_data sys hdr [] st = receive_flags sys hdr st
receive_data sys hdr (b ∷ bs) st =
    if is_neg st.socket || state_eq st.cur.state TcpState.close_wait
    then write_rst sys st
    else receive_flags sys hdr (record st { cur = queue_tcp hdr.seq hdr.psh (b ∷ bs) st.cur })

-- The client's window and the time are noted, unless the session is closed.
unfoldable pub receive_segment : System → TcpHeader → (bytes : List ℕ) → St → St
unfolding receive_data
receive_segment sys hdr bytes st =
    let st1 = stamp sys st in
    let st2 = record st1 {
      cur = record st1.cur { send_window = u32 (hdr.window * 2 ^ st1.cur.send_scale) };
    } in
    if is_closed st.cur.state then write_rst sys st else receive_data sys hdr bytes st2
