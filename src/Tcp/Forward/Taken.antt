-- ===== src/Tcp/Forward/Taken.antt =====
-- The queue of segments as a byte stream, and the bytes that send takes of it (app/src/main/cpp/tcp.c).
use mathlib.Core.List.{append_assoc}
use mobile_injection.Base.{
  ℕ, ◌+◌, ◌-◌, ◌%◌, ◌^◌, ◌<◌, ◌≤◌, ◌≡◌, refl, sym, ◌∙◌, ap, arith, inl, inr, Bool, some, List, [],
  ◌∷◌, ◌++◌, length, length-drop, length-take, take, drop, take_all, take-append-drop, drop-drop,
  drop-take, eq→==, ==→eq, add32, u16, ltb, ◌==◌, if◌then◌else◌, Bool-cases, not, ℤ,
}
use mobile_injection.Types.{Segment}
use mobile_injection.System.{System, Trace, Event, Sent}
use mobile_injection.Tcp.State.{St}
use mobile_injection.Tcp.Forward.{pending, send_segment}

-- A segment whose counters lie within its bytes.
pub record IsSegment (q : Segment) : Type 0 where
  pub begun : q.sent ≤ q.len
  pub stored : q.len ≤ length q.bytes
  pub short : q.len < 2 ^ 16

-- The bytes of the queue that follow on the sequence number without a gap.
unfoldable pub stream : ℕ → List Segment → List ℕ
stream r [] = []
stream r (q ∷ rest) =
    if add32 q.seq q.sent == r then pending q ++ stream (add32 q.seq q.len) rest else []

-- The bytes that the socket took with one call.
unfoldable pub taken_by : System → Trace → Event → List ℕ
taken_by sys tr (Event.sent fd bytes more) = elim (sys.send tr fd bytes more) [
  | Sent.count n ↦ take n bytes
  | _ ↦ []
]
taken_by sys tr _ = []

-- All the bytes that the socket took in a trace.
unfoldable pub accepted : System → Trace → List ℕ
accepted sys [] = []
accepted sys (event ∷ tr) = accepted sys tr ++ taken_by sys tr event

-- A system in which send reports no error.
abbrev pub Sends : System → Type 0
Sends sys =
    (tr : Trace) (fd : ℤ) (bytes : List ℕ) (more : Bool)
    → (n : ℕ) × (sys.send tr fd bytes more ≡ Sent.count n)

pub length-pending : (q : Segment) → IsSegment q → length (pending q) ≡ q.len - q.sent
length-pending q h =
    omega (arith, length-take (q.len - q.sent) (drop q.sent q.bytes), length-drop q.sent q.bytes, h)

-- What one send takes, counted as the code counts it.
pub send_segment-counts :
    (sys : System) (q : Segment) (st : St)
    → Sends sys
    → IsSegment q
    → (n : ℕ) × (n ≤ q.len - q.sent)
      × (send_segment sys (pending q) q st
          ≡ (some n, record st { trace = Event.sent st.socket (pending q) (not q.psh) ∷ st.trace }))
      × (taken_by sys st.trace (Event.sent st.socket (pending q) (not q.psh)) ≡ take n (pending q))
unfolding send_segment taken_by
send_segment-counts sys q st sends h =
    let (n, e) = sends st.trace st.socket (pending q) (not q.psh) in
    let size = length-pending q h in
    elim (Bool-cases (ltb (q.len - q.sent) n)) [
      | inl more ↦ (
        q.len - q.sent,
        omega arith,
        rw e (ground arith),
        rw (e, taken_by)
            (take_all n (pending q) (ground arith)
              ∙ sym (take_all (q.len - q.sent) (pending q) (omega arith))),
      )
      | inr fits ↦ (n, ground arith, rw e (ground arith), rw (e, taken_by))
    ]

-- The segment after `n` more of its bytes were taken.
abbrev taken_off : ℕ → Segment → Segment
taken_off n q = record q { sent = u16 (q.sent + n) }

-- The bytes of a segment are those taken now and those left.
pending-taken :
    (n : ℕ) (q : Segment)
    → IsSegment q
    → n ≤ q.len - q.sent
    → pending q ≡ take n (pending q) ++ pending (taken_off n q)
pending-taken n q h k =
    let here : (q.sent + n) % 2 ^ 16 ≡ q.sent + n = omega (arith, h) in
    let count : q.len - q.sent - n ≡ q.len - (q.sent + n) = omega arith in
    rw here (
      sym (take-append-drop n (pending q))
      ∙ ap (λ t. take n (pending q) ++ t)
          (drop-take n (q.len - q.sent) (drop q.sent q.bytes)
            ∙ (ap (λ t. take (q.len - q.sent - n) t) (drop-drop n q.sent q.bytes)
                ∙ ap (λ k. take k (drop (q.sent + n) q.bytes)) count)))

-- A round of the loop takes its bytes off the front of the stream.
pub stream-advance :
    (n : ℕ) (q : Segment) (rest : List Segment) (r : ℕ)
    → IsSegment q
    → n ≤ q.len - q.sent
    → add32 q.seq q.sent ≡ r
    → let q1 = taken_off n q in
      (stream r (q ∷ rest)
        ≡ take n (pending q)
          ++ stream (add32 q1.seq q1.sent) (if q1.len == q1.sent then rest else q1 ∷ rest))
unfolding stream
stream-advance n q rest r h k e =
    let split = pending-taken n q h k in
    let here : (q.sent + n) % 2 ^ 16 ≡ q.sent + n = omega (arith, h) in
    rw (eq→== (add32 q.seq q.sent) r e) (elim (Bool-cases (q.len == (q.sent + n) % 2 ^ 16)) [
      | inl full ↦
          let all : take n (pending q) ≡ pending q =
            take_all n (pending q)
              (omega (arith, length-pending q h, ==→eq q.len ((q.sent + n) % 2 ^ 16) full)) in
          let end : u16 (q.sent + n) ≡ q.len = sym (==→eq q.len ((q.sent + n) % 2 ^ 16) full) in
          rw (full, all, end)
      | inr part ↦
          let last = add32 q.seq (u16 (q.sent + n)) in
          rw (part, eq→== last last refl)
            (ap (λ t. t ++ stream (add32 q.seq q.len) rest) split
              ∙ append_assoc (take n (pending q)) (pending (taken_off n q))
                  (stream (add32 q.seq q.len) rest))
    ])

-- The outcome of the loop: the bytes `out` went to the socket, they are what was in front of the
