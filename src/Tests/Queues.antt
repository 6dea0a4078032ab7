-- ===== src/Tests/Queues.antt =====
-- The queue of a concrete session.
use mobile_injection.Base.{
  ℕ, ◌≤◌, ◌≡◌, refl, arith, true, false, not, ◌⊎◌, some, [], ◌∷◌, is_neg, length, if◌then◌else◌,
  ◌==◌,
}
use mobile_injection.Util.Serial.Order.{is_before}
use mobile_injection.Tcp.Queue.{queue_tcp}
use mobile_injection.Tcp.Queue.Order.{Comparable, Ascending}
use mobile_injection.Tcp.Queue.Lookup.{find, updated, queue_tcp_lem}
use mobile_injection.Tcp.Forward.{forward_loop, send_segment, sent_value}
use mobile_injection.Tcp.Forward.Taken.{Sends, IsSegment}
use mobile_injection.Tcp.Forward.Stream.{Forwarded, forward_loop-Forwarded}
use mobile_injection.Tcp.Forward.Errors.{send_segment-never_fails}
use mobile_injection.Tests.Data.{kernel, busy, session, st, hello, world}

kernel-Sends : Sends kernel
kernel-Sends tr fd bytes more = (length bytes, refl)

hello-IsSegment : IsSegment hello
hello-IsSegment = record { begun = omega arith; stored = omega arith; short = omega arith }

world-IsSegment : IsSegment world
world-IsSegment = record { begun = omega arith; stored = omega arith; short = omega arith }

forward_loop-Forwarded_example :
    Forwarded kernel st (forward_loop kernel false 8000 (hello ∷ world ∷ []) st)
forward_loop-Forwarded_example =
    forward_loop-Forwarded kernel false 8000 (hello ∷ world ∷ []) st kernel-Sends refl
      (hello-IsSegment, (world-IsSegment, tt)) refl (omega arith)

hello-Comparable : Comparable 505 hello
hello-Comparable = record { word = omega arith; not_above = omega arith; not_below = omega arith }

world-Comparable : Comparable 505 world
world-Comparable = record { word = omega arith; not_above = omega arith; not_below = omega arith }

queue-Ascending : Ascending (hello ∷ world ∷ [])
queue-Ascending = ((omega arith, tt), (tt, tt))

queue_tcp_example :
    let after = queue_tcp 505 true (1 ∷ []) session in
    Ascending after.forward
    × ((q : ℕ)
        → find q after.forward ≡ (
            if is_before 505 session.remote_seq
            then find q session.forward
            else if 505 == q
            then updated 505 true (1 ∷ []) (find 505 session.forward)
            else find q session.forward))
    × (record after { forward = session.forward } ≡ session)
queue_tcp_example = queue_tcp_lem 505 true (1 ∷ []) session (record {
  word = omega arith;
  remote_word = omega arith;
  comparable = (hello-Comparable, (world-Comparable, tt));
  ascending = queue-Ascending;
})

send_segment-never_fails_example :
    (n : ℕ) × (((send_segment busy (101 ∷ 121 ∷ []) hello st).0 ≡ some n)
      × ((n ≤ 2)
          × ((is_neg (sent_value (busy.send st.trace st.socket (101 ∷ 121 ∷ []) (not hello.psh)))
                ≡ false)
              ⊎ (n ≡ 2))))
send_segment-never_fails_example =
    send_segment-never_fails busy (101 ∷ 121 ∷ []) hello st (omega arith)
