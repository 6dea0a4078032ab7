-- ===== src/Icmp/Socket.antt =====
-- `check_icmp_socket` of app/src/main/cpp/icmp.c: an answer to an echo request.
use mobile_injection.Base.{ℕ, ◌-◌, List, [], ◌∷◌, ◌++◌, is_neg, ◌==◌, length, take, if◌then◌else◌}
use mobile_injection.Base.Run.{◌>>=◌, Run, ok}
use mobile_injection.Util.Checksum.{calc_checksum}
use mobile_injection.Types.{IcmpSession, epollin, epollerr}
use mobile_injection.System.{System, Event, Received}
use mobile_injection.Held.{Held, has_event}
use mobile_injection.Icmp.Packet.{set_echo, answer_pseudo, write_icmp}
use mobile_injection.Icmp.Timer.{stamp_icmp, stop_icmp}

-- ICMP4_MAXMSG and ICMP6_MAXMSG, the size of the buffer.
abbrev pub buffer_length : (version : ℕ) → ℕ
buffer_length version = if version == 4 then 65_507 else 65_487

-- "Socket read data": the original identifier is restored, and the message goes to the client.
unfoldable pub receive_echo : System → List ℕ → Held IcmpSession → Run (Held IcmpSession)
unfolding set_echo answer_pseudo
receive_echo sys bytes st = do
  let n = length bytes
  let buffer = bytes ++ sys.leftover st.trace (buffer_length st.cur.version - n)
  let start = if st.cur.version == 6 then calc_checksum 0 (answer_pseudo st.cur n) else 0
  message ← set_echo start st.cur.id n buffer
  let (res, tr) = write_icmp sys st.cur (take n message) st.trace
  let st1 = record st { trace = tr }
  ok (if is_neg res then stop_icmp st1 else st1)

-- What recv returns.
unfoldable pub receive_icmp : System → Received → Held IcmpSession → Run (Held IcmpSession)
unfolding receive_echo
receive_icmp sys (Received.bytes []) st = ok (stop_icmp st)
receive_icmp sys (Received.bytes (b ∷ bs)) st = receive_echo sys (b ∷ bs) st
receive_icmp sys Received.recv_again st = ok st
receive_icmp sys Received.recv_failed st = ok (stop_icmp st)

unfoldable pub check_icmp_socket : System → (events : ℕ) → Held IcmpSession → Run (Held IcmpSession)
unfolding receive_icmp
check_icmp_socket sys events st =
    let st1 = stamp_icmp sys st in
    let blen = buffer_length st.cur.version in
    let received =
      receive_icmp sys (sys.recv st1.trace st1.socket blen)
        (record st1 { trace = Event.received st1.socket blen ∷ st1.trace }) in
    if has_event events epollerr
    then ok (stop_icmp (record st1 { trace = Event.asked_error st1.socket ∷ st1.trace }))
    else if has_event events epollin
    then received
    else ok st
