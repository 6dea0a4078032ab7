-- ===== src/Tcp/Queue/Order.antt =====
-- The order of the queue of `queue_tcp` (app/src/main/cpp/tcp.c).
use mobile_injection.Base.{
  ℕ, ◌+◌, ◌^◌, ◌<◌, ◌≡◌, ◌≢◌, arith, List, [], ◌∷◌, All, Bool, ◌⊎◌, inl, inr,
}
use mobile_injection.Util.Serial.Order.{bias, compare_u32-cases}
use mobile_injection.Types.{Segment}
use mobile_injection.Tcp.Queue.{enqueue, merge_segment, new_segment}

-- A 32-bit sequence number that is not at the distance 0x7fffffff at which `compare_u32` errs.
pub record Comparable (seq : ℕ) (s : Segment) : Type 0 where
  pub word : s.seq < 2 ^ 32
  pub not_above : bias s.seq ≢ bias seq + 0x7fff_ffff
  pub not_below : bias seq ≢ bias s.seq + 0x7fff_ffff

-- Every segment of the list lies after the sequence number.
abbrev pub After : ℕ → List Segment → Type 0
After seq = All (λ s. bias seq < bias s.seq)

abbrev pub Ascending : List Segment → Type 0
Ascending [] = Unit
Ascending (s ∷ rest) = After s.seq rest × Ascending rest

pub After-trans : (a b : ℕ) (l : List Segment) → bias a < bias b → After b l → After a l
After-trans a b [] h k = tt
After-trans a b (s ∷ l) h k = (omega arith, After-trans a b l h k.1)

-- `enqueue` adds at most the sequence number that it is given.
After-enqueue :
    (a seq : ℕ) (psh : Bool) (bytes : List ℕ) (l : List Segment)
    → bias a < bias seq
    → After a l
    → After a (enqueue seq psh bytes l)
unfolding enqueue
After-enqueue a seq psh bytes [] h k = (h, tt)
After-enqueue a seq psh bytes (s ∷ l) h k = ground (arith, After-enqueue a seq psh bytes l h)

-- How `enqueue` treats a segment, by the order of the sequence numbers.
pub enqueue-cons :
    (seq : ℕ) (psh : Bool) (bytes : List ℕ) (s : Segment) (l : List Segment)
    → seq < 2 ^ 32
    → Comparable seq s
    → ((bias s.seq < bias seq) × (enqueue seq psh bytes (s ∷ l) ≡ s ∷ enqueue seq psh bytes l))
      ⊎ (((bias seq < bias s.seq)
            × (enqueue seq psh bytes (s ∷ l) ≡ new_segment seq psh bytes ∷ s ∷ l))
          ⊎ ((s.seq ≡ seq) × (enqueue seq psh bytes (s ∷ l) ≡ merge_segment s bytes ∷ l)))
unfolding enqueue
enqueue-cons seq psh bytes s l h c =
    elim (compare_u32-cases s.seq seq c.word h c.not_below c.not_above) [
      | inl (e, lt) ↦ inl (lt, rw e)
      | inr (inl (e, lt)) ↦ inr (inl (lt, rw e))
      | inr (inr (e, same)) ↦ inr (inr (same, rw e (ground arith)))
    ]

pub merge_segment-seq : (s : Segment) (bytes : List ℕ) → (merge_segment s bytes).seq ≡ s.seq
unfolding merge_segment
merge_segment-seq s bytes = ground arith

-- A strictly ascending queue stays strictly ascending when data is queued, if the sequence number fits
-- 32 bits and is at the distance 0x7fffffff from none of the queue.
pub enqueue-Ascending :
    (seq : ℕ) (psh : Bool) (bytes : List ℕ) (l : List Segment)
    → seq < 2 ^ 32
    → All (Comparable seq) l
    → Ascending l
    → Ascending (enqueue seq psh bytes l)
enqueue-Ascending seq psh bytes [] h c k = unfold enqueue in (tt, tt)
enqueue-Ascending seq psh bytes (s ∷ l) h c k = elim (enqueue-cons seq psh bytes s l h c.0) [
  | inl (lt, e) ↦
      rw e (After-enqueue s.seq seq psh bytes l lt k.0, enqueue-Ascending seq psh bytes l h c.1 k.1)
  | inr (inl (lt, e)) ↦ rw e ((lt, After-trans seq s.seq l lt k.0), k)
  | inr (inr (same, e)) ↦ rw (e, merge_segment-seq s bytes) k
]
