-- ===== src/Tcp/Queue/Lookup.antt =====
-- The queue as a map from sequence numbers to segments: `queue_tcp` inserts at one key.
use mobile_injection.Base.{
  ℕ, ◌^◌, ◌<◌, ◌≡◌, arith, List, [], ◌∷◌, All, Bool, refl, inl, inr, Option, none, some, ◌==◌,
  if◌then◌else◌, Bool-cases,
}
use mobile_injection.Util.Serial.Order.{is_before, is_neg-compare_u32}
use mobile_injection.Types.{Segment, TcpSession}
use mobile_injection.Tcp.Queue.{enqueue, merge_segment, queue_tcp, new_segment}
use mobile_injection.Tcp.Queue.Order.{
  Comparable, After, Ascending, After-trans, enqueue-cons, enqueue-Ascending, merge_segment-seq,
}

-- The queued segment that starts at a sequence number.
unfoldable pub find : ℕ → List Segment → Option Segment
find q [] = none
find q (s ∷ l) = if s.seq == q then some s else find q l

-- What the queue holds at `seq` after new data for it has come.
abbrev pub updated : (seq : ℕ) (psh : Bool) (bytes : List ℕ) → Option Segment → Option Segment
updated seq psh bytes none = some (new_segment seq psh bytes)
updated seq psh bytes (some s) = some (merge_segment s bytes)

find-After : (q : ℕ) (l : List Segment) → After q l → find q l ≡ none
unfolding find
find-After q [] h = refl
find-After q (s ∷ l) h = ground (arith, find-After q l)

find-enqueue :
    (q seq : ℕ) (psh : Bool) (bytes : List ℕ) (l : List Segment)
    → seq < 2 ^ 32
    → All (Comparable seq) l
    → Ascending l
    → find q (enqueue seq psh bytes l)
      ≡ (if seq == q then updated seq psh bytes (find seq l) else find q l)
unfolding find
find-enqueue q seq psh bytes [] h c k = unfold enqueue in ground arith
find-enqueue q seq psh bytes (s ∷ l) h c k = elim (enqueue-cons seq psh bytes s l h c.0) [
  | inl (lt, e) ↦ rw e (ground (arith, find-enqueue q seq psh bytes l h c.1 k.1))
  | inr (inl (lt, e)) ↦ rw e (ground (arith, find-After seq l (After-trans seq s.seq l lt k.0)))
  | inr (inr (same, e)) ↦ rw e (ground (arith, merge_segment-seq s bytes))
]

-- A queue that ascends strictly as signed integers, with no sequence number at the distance of `seq` at which
-- the comparison errs.
pub record IsQueue (seq : ℕ) (cur : TcpSession) : Type 0 where
  pub word : seq < 2 ^ 32
  pub remote_word : cur.remote_seq < 2 ^ 32
  pub comparable : All (Comparable seq) cur.forward
  pub ascending : Ascending cur.forward

-- For 32-bit sequence numbers, a queue that ascends strictly as signed integers, and a new number at the distance
-- 0x7fffffff, at which `compare_u32` errs, from none of the queue: `queue_tcp` ignores data whose number is
-- less than remote_seq as a signed integer, unless it is that distance less. Where the numbers pass 2^31
-- this is the data to come next. Other data is inserted at its own sequence number and nowhere else:
-- a new segment where none is queued, else the queued one merged with the data. The queue stays strictly
-- ascending as signed integers, and the rest of the session is kept.
pub queue_tcp_lem :
    (seq : ℕ) (psh : Bool) (bytes : List ℕ) (cur : TcpSession)
    → IsQueue seq cur
    → let after = queue_tcp seq psh bytes cur in
      Ascending after.forward
      × ((q : ℕ)
          → find q after.forward ≡ (
              if is_before seq cur.remote_seq
              then find q cur.forward
              else if seq == q
              then updated seq psh bytes (find seq cur.forward)
              else find q cur.forward))
      × (record after { forward = cur.forward } ≡ cur)
unfolding queue_tcp
queue_tcp_lem seq psh bytes cur h =
    let same = is_neg-compare_u32 seq cur.remote_seq h.word h.remote_word in
    elim (Bool-cases (is_before seq cur.remote_seq)) [
      | inl old ↦ rw (same, old) (h.ascending, λ q. refl, refl)
      | inr new ↦
          rw (same, new)
            (
              enqueue-Ascending seq psh bytes cur.forward h.word h.comparable h.ascending,
              λ q. find-enqueue q seq psh bytes cur.forward h.word h.comparable h.ascending,
              refl,
            )
    ]
