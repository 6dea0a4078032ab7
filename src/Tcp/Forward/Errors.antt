-- ===== src/Tcp/Forward/Errors.antt =====
-- The result of `send` in the forwarding loop of `check_tcp_socket` (app/src/main/cpp/tcp.c).
use mobile_injection.Base.{
  ℕ, ◌-◌, ◌^◌, ◌≡◌, ◌≤◌, refl, arith, false, not, some, List, pos, negsuc, ltb, lt→ltb, ◌⊎◌, inl,
  inr, Bool-cases, ltb-false→le, is_neg, ◌<◌,
}
use mobile_injection.Types.{Segment}
use mobile_injection.System.{System, Sent}
use mobile_injection.Tcp.State.{St}
use mobile_injection.Tcp.Forward.{send_segment, cap_sent, sent_value}

cap_sent-error : (len : ℕ) → len < 65536 → cap_sent (negsuc 0) len ≡ pos len
unfolding cap_sent
cap_sent-error len h = rw (lt→ltb len (2 ^ 64 - 1 - 0) (omega arith))

cap_sent-count : (n len : ℕ) → (m : ℕ) × ((cap_sent (pos n) len ≡ pos m) × (m ≤ len))
unfolding cap_sent
cap_sent-count n len = elim (Bool-cases (ltb len n)) [
  | inl more ↦ (len, (rw more, omega arith))
  | inr fits ↦ (n, (rw fits, ltb-false→le len n fits))
]

cap_sent-sent_value :
    (r : Sent) (len : ℕ)
    → len < 65536
    → (m : ℕ) × ((cap_sent (sent_value r) len ≡ pos m)
        × ((m ≤ len) × ((is_neg (sent_value r) ≡ false) ⊎ (m ≡ len))))
cap_sent-sent_value (Sent.count n) len h =
    let (m, (e, k)) = cap_sent-count n len in (m, (e, (k, inl refl)))
cap_sent-sent_value Sent.send_again len h = (len, (cap_sent-error len h, (omega arith, inr refl)))
cap_sent-sent_value Sent.send_failed len h = (len, (cap_sent-error len h, (omega arith, inr refl)))

-- For a segment of fewer than 65,536 bytes, `send_segment` never takes the branch of an error: whatever send answers, at
-- most the pending bytes count as taken, and an answer of -1, EAGAIN included, counts as all of them.
pub send_segment-never_fails :
    (sys : System) (bytes : List ℕ) (q : Segment) (st : St)
    → q.len < 65536
    → (n : ℕ) × (((send_segment sys bytes q st).0 ≡ some n)
        × ((n ≤ q.len - q.sent)
            × ((is_neg (sent_value (sys.send st.trace st.socket bytes (not q.psh))) ≡ false)
                ⊎ (n ≡ q.len - q.sent))))
unfolding send_segment
send_segment-never_fails sys bytes q st h =
    let r = sys.send st.trace st.socket bytes (not q.psh) in
    let (m, (e, (k, all))) = cap_sent-sent_value r (q.len - q.sent) (omega arith) in
    (m, (rw e, (k, all)))
