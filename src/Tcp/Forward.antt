-- ===== src/Tcp/Forward.antt =====
-- "Forward data" of `check_tcp_socket` (app/src/main/cpp/tcp.c): the queue is sent to the socket in
-- order, as far as it follows on what was forwarded before.
pub mod Taken
pub mod Stream
pub mod Errors
use mobile_injection.Base.{
  ℕ, ◌+◌, ◌-◌, ◌^◌, ℤ, pos, negsuc, is_neg, pos_part, Bool, true, not, Option, none, some, List, [],
  ◌∷◌, ltb, ◌==◌, take, drop, add32, sub32, u16, if◌then◌else◌,
}
use mobile_injection.Base.Run.{◌>>=◌, Run, ok}
use mobile_injection.Http.Patch.{patch_http_url}
use mobile_injection.Types.{Segment}
use mobile_injection.System.{System, Event, Sent}
use mobile_injection.Tcp.State.{St}
use mobile_injection.Tcp.Write.{write_rst}
use mobile_injection.Tcp.Monitor.{ready_to_forward}

-- The bytes of a segment that the socket has not taken.
abbrev pub pending : Segment → List ℕ
pending q = take (q.len - q.sent) (drop q.sent q.bytes)

-- What is sent for a segment: the pending bytes, or on port 80 the request rewritten for the proxy.
unfoldable pub outgoing : (dest : ℕ) → Segment → Run (List ℕ)
outgoing dest q =
    if dest == 80
    then (do
      patched ← patch_http_url (drop q.sent q.bytes) (q.len - q.sent)
      elim patched [ none ↦ ok (pending q) | some new_data ↦ ok new_data ])
    else ok (pending q)

-- What send returns: -1 stands for an error.
abbrev pub sent_value : Sent → ℤ
sent_value (Sent.count n) = pos n
sent_value Sent.send_again = negsuc 0
sent_value Sent.send_failed = negsuc 0

-- The value of an ssize_t when it is compared with a size_t.
abbrev pub to_size : ℤ → ℕ
to_size (pos n) = n
to_size (negsuc n) = 2 ^ 64 - 1 - n

-- `if (sent > len) sent = len`, a comparison of an ssize_t with a size_t.
unfoldable pub cap_sent : ℤ → (len : ℕ) → ℤ
cap_sent sent len = if ltb len (to_size sent) then pos len else sent

-- One send of the loop: the number of bytes that count as taken, or `none` in the branch of an error.
unfoldable pub send_segment : System → (bytes : List ℕ) → Segment → St → Option ℕ × St
unfolding cap_sent
send_segment sys bytes q st =
    let res = sys.send st.trace st.socket bytes (not q.psh) in
    let st1 = record st { trace = Event.sent st.socket bytes (not q.psh) ∷ st.trace } in
    let sent = cap_sent (sent_value res) (q.len - q.sent) in
    let failed : Option ℕ × St = elim res [
      | Sent.send_again ↦ (none, st1)
      | _ ↦ (none, write_rst sys st1)
    ] in
    if is_neg sent then failed else (some (pos_part sent), st1)

-- The bookkeeping after `n` bytes of the head of the queue were taken.
unfoldable pub advance : (n : ℕ) → Segment → List Segment → St → St
advance n q rest st =
    let q1 = record q { sent = u16 (q.sent + n) } in
    record st {
      cur = record st.cur {
        sent = st.cur.sent + n;
        remote_seq = add32 q1.seq q1.sent;
        forward = if q1.len == q1.sent then rest else q1 ∷ rest;
      };
    }

-- What follows a send: the loop ends after an error or a partial send, and goes on by `next` after a
-- segment that the socket took whole.
unfoldable pub after_send :
    (fwd : Bool)
    → Segment
    → List Segment
    → (next : ℕ → St → Run (Bool × St)) → Option ℕ × St
    → Run (Bool × St)
after_send fwd q rest next (none, st1) = ok (fwd, st1)
after_send fwd q rest next (some n, st1) =
    let st2 = advance n q rest st1 in
    let more = next n st2 in if q.len == u16 (q.sent + n) then more else ok (true, st2)

-- The loop over the queue: whether anything was forwarded, and the state.
unfoldable pub forward_loop :
    System → (fwd : Bool) (buffer_size : ℕ) → List Segment → St → Run (Bool × St)
unfolding after_send
forward_loop sys fwd buffer_size [] st = ok (fwd, st)
forward_loop sys fwd buffer_size (q ∷ rest) st =
    let round = (do
      bytes ← outgoing st.cur.dest q
      after_send fwd q rest (λ n st2. forward_loop sys true (sub32 buffer_size n) rest st2)
          (send_segment sys bytes q st)) in
    if ready_to_forward st.cur.remote_seq buffer_size q then round else ok (fwd, st)
