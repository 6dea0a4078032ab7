-- ===== src/Tcp/Forward/Stream.antt =====
-- The queue of segments as a byte stream, for the forwarding loop of `check_tcp_socket`
-- (app/src/main/cpp/tcp.c).
use mathlib.Core.List.{append_assoc, append-nil}
use mobile_injection.Base.{
  ℕ, ◌+◌, ◌-◌, ◌^◌, ◌<◌, ◌≤◌, ◌≡◌, refl, sym, ◌∙◌, ap, arith, inl, inr, Bool, true, false, List, [],
  ◌∷◌, ◌++◌, All, length, length-append, length-take, take, add32, sub32, u16, ◌==◌, Bool-cases,
  not,
}
use mobile_injection.Base.Run.{Run, ok}
use mobile_injection.Types.{Segment}
use mobile_injection.System.{System, Event}
use mobile_injection.Tcp.State.{St}
use mobile_injection.Tcp.Monitor.{ready_to_forward}
use mobile_injection.Tcp.Forward.{pending, outgoing, advance, forward_loop}
use mobile_injection.Tcp.Forward.Taken.{
  IsSegment, stream, taken_by, accepted, Sends, send_segment-counts, stream-advance, length-pending,
}

-- stream, and remote_seq has moved on by their number.
pub record Forwarded (sys : System) (st : St) (result : Run (Bool × St)) : Type 0 where
  pub fwd : Bool
  pub after : St
  pub out : List ℕ
  pub returns : result ≡ ok (fwd, after)
  pub sent : accepted sys after.trace ≡ accepted sys st.trace ++ out
  pub in_order :
      stream st.cur.remote_seq st.cur.forward ≡ out ++ stream after.cur.remote_seq after.cur.forward
  pub counted : after.cur.remote_seq ≡ add32 st.cur.remote_seq (length out)

Forwarded-stays :
    (sys : System) (fwd : Bool) (st : St)
    → st.cur.remote_seq < 2 ^ 32
    → Forwarded sys st (ok (fwd, st))
Forwarded-stays sys fwd st r = record {
  fwd = fwd;
  after = st;
  out = [];
  returns = refl;
  sent = sym (append-nil _);
  in_order = refl;
  counted = omega arith;
}

-- One round: the bytes go out, and the bookkeeping follows.
record Round (sys : System) (st st2 : St) : Type 0 where
  out : List ℕ
  sent : accepted sys st2.trace ≡ accepted sys st.trace ++ out
  in_order :
      stream st.cur.remote_seq st.cur.forward ≡ out ++ stream st2.cur.remote_seq st2.cur.forward
  counted : st2.cur.remote_seq ≡ add32 st.cur.remote_seq (length out)

Forwarded-after :
    {sys : System} {st st2 : St} {result : Run (Bool × St)}
    → Round sys st st2
    → Forwarded sys st2 result
    → Forwarded sys st result
Forwarded-after {sys} {st} {st2} a b = record {
  fwd = b.fwd;
  after = b.after;
  out = a.out ++ b.out;
  returns = b.returns;
  sent = b.sent ∙ (ap (λ t. t ++ b.out) a.sent ∙ append_assoc (accepted sys st.trace) a.out b.out);
  in_order =
      a.in_order
      ∙ (ap (λ t. a.out ++ t) b.in_order
          ∙ sym (append_assoc a.out b.out (stream b.after.cur.remote_seq b.after.cur.forward)));
  counted = omega (arith, a.counted, b.counted, length-append a.out b.out);
}

Round-advance :
    (sys : System) (n : ℕ) (q : Segment) (rest : List Segment) (st : St) (event : Event)
    → IsSegment q
    → n ≤ q.len - q.sent
    → add32 q.seq q.sent ≡ st.cur.remote_seq
    → st.cur.forward ≡ q ∷ rest
    → taken_by sys st.trace event ≡ take n (pending q)
    → Round sys st (advance n q rest (record st { trace = event ∷ st.trace }))
unfolding advance accepted
Round-advance sys n q rest st event h k e front took = record {
  out = take n (pending q);
  sent = ap (λ t. accepted sys st.trace ++ t) took;
  in_order = rw front (stream-advance n q rest st.cur.remote_seq h k e);
  counted = omega (arith, length-take n (pending q), length-pending q h, h);
}

-- On every port but 80, if send reports no error: the forwarding loop returns, what it hands to the
-- socket are the first bytes of the queued stream that follows on remote_seq, in order and each once,
-- the rest of that stream stays queued, and remote_seq moves on by the number of bytes handed over,
-- modulo 2 ^ 32.
pub forward_loop-Forwarded :
    (sys : System) (fwd : Bool) (buffer_size : ℕ) (queue : List Segment) (st : St)
    → Sends sys
    → st.cur.forward ≡ queue
    → All IsSegment queue
    → (st.cur.dest == 80) ≡ false
    → st.cur.remote_seq < 2 ^ 32
    → Forwarded sys st (forward_loop sys fwd buffer_size queue st)
unfolding forward_loop outgoing
forward_loop-Forwarded sys fwd buffer_size [] st sends e h port r = Forwarded-stays sys fwd st r
forward_loop-Forwarded sys fwd buffer_size (q ∷ rest) st sends e h port r =
    elim (Bool-cases (ready_to_forward st.cur.remote_seq buffer_size q)) [
      | inr not_ready ↦ rw not_ready (Forwarded-stays sys fwd st r)
      | inl ready ↦
          let (n, k, sending, took) = send_segment-counts sys q st sends h.0 in
          let event = Event.sent st.socket (pending q) (not q.psh) in
          let st2 = advance n q rest (record st { trace = event ∷ st.trace }) in
          let front : add32 q.seq q.sent ≡ st.cur.remote_seq = ground arith in
          let round = Round-advance sys n q rest st event h.0 k front e took in
          rw (ready, port, sending)
            (elim (Bool-cases (q.len == u16 (q.sent + n))) [
              | inl full ↦ rw full (
                  Forwarded-after round (
                    forward_loop-Forwarded sys true (sub32 buffer_size n) rest st2 sends
                      (unfold advance in rw full) h.1 (unfold advance in port)
                      (unfold advance in omega arith)))
              | inr part ↦ rw part (
                  Forwarded-after round
                    (Forwarded-stays sys true st2 (unfold advance in omega arith)))
            ])
    ]
