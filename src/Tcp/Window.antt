-- ===== src/Tcp/Window.antt =====
-- The send window, the receive buffer and the receive window (app/src/main/cpp/tcp.c).
pub mod Bounds
pub mod Sent
use mobile_injection.Base.{
  ℕ, ◌-◌, ◌*◌, ◌/◌, ◌^◌, List, [], ◌∷◌, ℤ, pos, eq_ℤ, is_neg, is_pos, ltb_ℤ, ◌-ℤ◌, ◌/ℤ◌, pos_part,
  ltb, ◌==◌, add32, sub32, u32, if◌then◌else◌,
}
use mobile_injection.Util.Serial.{compare_u32}
use mobile_injection.Types.{TcpSession, Segment}
use mobile_injection.System.{System, Event}
use mobile_injection.Tcp.State.{St}

unfoldable pub get_send_window : TcpSession → ℕ
get_send_window cur =
    let behind =
      if is_pos (compare_u32 cur.acked cur.local_seq)
      then cur.acked
      else sub32 cur.local_seq cur.acked in
    if ltb behind cur.send_window then cur.send_window - behind else 0

-- Half of the socket's send buffer, less what it has not sent yet.
unfoldable pub get_receive_buffer : System → St → ℕ × St
get_receive_buffer sys st =
    let buf = sys.sndbuf st.trace st.socket in
    let half = (if eq_ℤ buf (pos 0) then pos 16384 else buf) /ℤ 2 in
    let tr1 = Event.asked_sndbuf st.socket ∷ st.trace in
    let unsent = sys.outq tr1 st.socket in
    let tr2 = Event.asked_outq st.socket ∷ tr1 in
    if is_neg st.socket then (0, st) else (
      if ltb_ℤ unsent half then u32 (pos_part (half -ℤ unsent)) else 0,
      record st { trace = tr2 },
    )

-- The bytes in the queue that the socket has not taken.
unfoldable pub to_forward : ℕ → List Segment → ℕ
to_forward total [] = total
to_forward total (q ∷ rest) = to_forward (add32 total (sub32 q.len q.sent)) rest

-- What is left of the buffer after the bytes to forward, at most what the header field can hold with
-- the session's scale. (A scale of 32 or more, which C leaves undefined, shifts everything out.)
unfoldable pub window_of : (buffer forward scale : ℕ) → ℕ
window_of buffer forward scale =
    let max = u32 (0xffff * 2 ^ scale) in
    let capped = if ltb max buffer then max else buffer in
    let window = if ltb forward capped then capped - forward else 0 in
    if window / 2 ^ scale == 0 then 0 else window

unfoldable pub get_receive_window : System → St → ℕ × St
unfolding to_forward window_of
get_receive_window sys st =
    let forward = to_forward 0 st.cur.forward in
    let (buffer, st1) = get_receive_buffer sys st in
    (window_of buffer forward st.cur.recv_scale, st1)
