-- ===== src/Tcp/Write.antt =====
-- `write_tcp` and the functions that send one kind of packet (app/src/main/cpp/tcp.c).
use mobile_injection.Base.{
  ℕ, true, false, List, [], ◌∷◌, ℤ, pos, negsuc, eq_ℤ, is_neg, length, add32, if◌then◌else◌,
}
use mobile_injection.Types.{TcpSession, TcpState, state_eq}
use mobile_injection.System.{System, Trace, Event}
use mobile_injection.Tcp.State.{St}
use mobile_injection.Tcp.Packet.{Flags, tcp_packet}

-- The result is -1 if the tun device did not take the whole packet.
unfoldable pub write_tcp : System → TcpSession → (bytes : List ℕ) → Flags → Trace → ℤ × Trace
write_tcp sys cur bytes f tr =
    let packet = tcp_packet cur bytes f in
    let res = sys.write tr packet in
    (if eq_ℤ res (pos (length packet)) then res else negsuc 0, Event.wrote packet ∷ tr)

-- The common body of write_syn_ack, write_ack, write_data and write_fin_ack: a failed write sends the
-- session to TCP_CLOSING.
unfoldable pub write_flags : System → (bytes : List ℕ) → Flags → St → ℤ × St
write_flags sys bytes f st =
    let (res, tr) = write_tcp sys st.cur bytes f st.trace in
    if is_neg res
    then (negsuc 0, record st { cur = record st.cur { state = TcpState.closing }; trace = tr })
    else (pos 0, record st { trace = tr })

abbrev pub syn_ack_flags : Flags
syn_ack_flags = record { syn = true; ack = true; fin = false; rst = false }

abbrev pub ack_flags : Flags
ack_flags = record { syn = false; ack = true; fin = false; rst = false }

abbrev pub fin_ack_flags : Flags
fin_ack_flags = record { syn = false; ack = true; fin = true; rst = false }

unfoldable pub write_syn_ack : System → St → ℤ × St
unfolding write_flags
write_syn_ack sys st = write_flags sys [] syn_ack_flags st

unfoldable pub write_ack : System → St → ℤ × St
unfolding write_flags
write_ack sys st = write_flags sys [] ack_flags st

unfoldable pub write_data : System → List ℕ → St → ℤ × St
unfolding write_flags
write_data sys bytes st = write_flags sys bytes ack_flags st

unfoldable pub write_fin_ack : System → St → ℤ × St
unfolding write_flags
write_fin_ack sys st = write_flags sys [] fin_ack_flags st

-- A session that still listens counts the SYN of the client and sends an ACK too.
unfoldable pub write_rst : System → St → St
write_rst sys st =
    let listening = state_eq st.cur.state TcpState.listen in
    let cur =
      if listening then record st.cur { remote_seq = add32 st.cur.remote_seq 1 } else st.cur in
    let (res, tr) =
      write_tcp sys cur [] (record { syn = false; ack = listening; fin = false; rst = true })
        st.trace in
    record st {
      cur =
          if state_eq cur.state TcpState.close
          then cur
          else record cur { state = TcpState.closing };
      trace = tr;
    }
