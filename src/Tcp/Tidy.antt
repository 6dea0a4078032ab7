-- ===== src/Tcp/Tidy.antt =====
-- The sockets of app/src/main/cpp/tcp.c: which states of a session go with a closed one.
pub mod Socket
pub mod Segment
pub mod Handle
use mobile_injection.Base.{ℕ, ◌≡◌, arith, Bool, true, false, ◌||◌, is_neg, List, ◌⊎◌}
use mobile_injection.Types.{TcpState, state_eq}
use mobile_injection.System.{System}
use mobile_injection.Tcp.State.{St}
use mobile_injection.Tcp.Packet.{Flags}
use mobile_injection.Tcp.Write.{write_flags, write_rst, write_ack}
use mobile_injection.Tcp.Window.{get_receive_buffer, get_receive_window}
use mobile_injection.Tcp.Timeout.{expire, finish, reset_counters, check_tcp_session}
use mobile_injection.Tcp.Monitor.{keep_alive, watch_input, watch_output, watch, monitor_tcp_session}

-- The states in which the socket has been closed.
abbrev pub is_shut : TcpState → Bool
is_shut state =
    state_eq state TcpState.close
    || (state_eq state TcpState.fin_wait1 || state_eq state TcpState.last_ack)

abbrev pub IsTidy : St → Type 0
IsTidy st = is_shut st.cur.state ≡ true → is_neg st.socket ≡ true

pub write_flags-IsTidy :
    (sys : System) (bytes : List ℕ) (f : Flags) (st : St)
    → IsTidy st
    → IsTidy (write_flags sys bytes f st).1
unfolding write_flags
write_flags-IsTidy sys bytes f st h = ground arith

pub write_rst-IsTidy : (sys : System) (st : St) → IsTidy st → IsTidy (write_rst sys st)
unfolding write_rst
write_rst-IsTidy sys st h = ground arith

pub get_receive_buffer-IsTidy :
    (sys : System) (st : St) → IsTidy st → IsTidy (get_receive_buffer sys st).1
unfolding get_receive_buffer
get_receive_buffer-IsTidy sys st h = ground arith

pub get_receive_window-IsTidy :
    (sys : System) (st : St) → IsTidy st → IsTidy (get_receive_window sys st).1
unfolding get_receive_window
get_receive_window-IsTidy sys st h = get_receive_buffer-IsTidy sys st h

expire-IsTidy :
    (sys : System) (sessions maxsessions now : ℕ) (st : St)
    → IsTidy st
    → IsTidy (expire sys sessions maxsessions now st)
unfolding expire
expire-IsTidy sys sessions maxsessions now st h = ground (arith, write_rst-IsTidy sys st h)

finish-IsTidy : (sys : System) (st : St) → IsTidy st → IsTidy (finish sys st)
unfolding finish
finish-IsTidy sys st h = ground arith

reset_counters-IsTidy : (st : St) → IsTidy st → IsTidy (reset_counters st)
unfolding reset_counters
reset_counters-IsTidy st h = ground arith

-- If a session in TCP_FIN_WAIT1, TCP_LAST_ACK or TCP_CLOSE holds no socket, this is so after
-- `check_tcp_session` too; and a session that it says is to be deleted is in TCP_CLOSE and holds none.
pub check_tcp_session-IsTidy :
    (sys : System) (sessions maxsessions : ℕ) (st : St)
    → IsTidy st
    → let r = check_tcp_session sys sessions maxsessions st in
      IsTidy r.1 × ((r.0 ≡ false) ⊎ ((r.1.cur.state ≡ TcpState.close) × (is_neg r.1.socket ≡ true)))
unfolding check_tcp_session
check_tcp_session-IsTidy sys sessions maxsessions st h =
    let tidy =
      reset_counters-IsTidy _
        (finish-IsTidy sys _ (expire-IsTidy sys sessions maxsessions _ _ h)) in
    (tidy, ground arith)

keep_alive-IsTidy : (sys : System) (st : St) → IsTidy st → IsTidy (keep_alive sys st)
unfolding keep_alive write_ack write_flags
keep_alive-IsTidy sys st h = ground arith

watch_input-IsTidy : (sys : System) (st : St) → IsTidy st → IsTidy (watch_input sys st).1
unfolding watch_input
watch_input-IsTidy sys st h = ground (arith, keep_alive-IsTidy sys st h)

watch-IsTidy : (sys : System) (st : St) → IsTidy st → IsTidy (watch sys st).1
unfolding watch watch_output
watch-IsTidy sys st h = ground (
  arith,
  watch_input-IsTidy sys st h,
  get_receive_buffer-IsTidy sys (watch_input sys st).1 (watch_input-IsTidy sys st h),
)

-- If a session in TCP_FIN_WAIT1, TCP_LAST_ACK or TCP_CLOSE holds no socket, this is so after
-- `monitor_tcp_session` too.
pub monitor_tcp_session-IsTidy :
    (sys : System) (st : St) → IsTidy st → IsTidy (monitor_tcp_session sys st).1
unfolding monitor_tcp_session
monitor_tcp_session-IsTidy sys st h = ground (arith, watch-IsTidy sys st h)
