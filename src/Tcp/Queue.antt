-- ===== src/Tcp/Queue.antt =====
-- `queue_tcp` of app/src/main/cpp/tcp.c: the segments that wait for the socket, ordered by sequence
-- number.
pub mod Order
pub mod State
pub mod Lookup
use mobile_injection.Base.{ℕ, Bool, ◌==◌, List, [], ◌∷◌, ltb, is_neg, is_pos, if◌then◌else◌, length}
use mobile_injection.Util.Serial.{compare_u32}
use mobile_injection.Types.{Segment, TcpSession}

-- The segment that is queued for new data.
abbrev pub new_segment : (seq : ℕ) (psh : Bool) (bytes : List ℕ) → Segment
new_segment seq psh bytes = record {
  seq = seq;
  len = length bytes;
  sent = 0;
  psh = psh;
  bytes = bytes;
}

-- New data at a sequence number that is queued already: the bytes are replaced when the new data is
-- longer, and `len` stays as it was.
unfoldable pub merge_segment : Segment → (bytes : List ℕ) → Segment
merge_segment s bytes =
    if s.len == length bytes
    then s
    else if ltb s.len (length bytes)
    then record s { bytes = bytes }
    else s

-- The loop passes the segments before `seq`; the new segment is put before the first one after
-- `seq`.
unfoldable pub enqueue : (seq : ℕ) (psh : Bool) (bytes : List ℕ) → List Segment → List Segment
unfolding merge_segment
enqueue seq psh bytes [] = new_segment seq psh bytes ∷ []
enqueue seq psh bytes (s ∷ rest) =
    let passed = s ∷ enqueue seq psh bytes rest in
    if is_neg (compare_u32 s.seq seq)
    then passed
    else if is_pos (compare_u32 s.seq seq)
    then new_segment seq psh bytes ∷ s ∷ rest
    else if s.seq == seq
    then merge_segment s bytes ∷ rest
    else s ∷ rest

unfoldable pub queue_tcp : (seq : ℕ) (psh : Bool) (bytes : List ℕ) → TcpSession → TcpSession
unfolding enqueue
queue_tcp seq psh bytes cur =
    if is_neg (compare_u32 seq cur.remote_seq)
    then cur
    else record cur { forward = enqueue seq psh bytes cur.forward }
