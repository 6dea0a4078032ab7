-- ===== src/Tcp/Downlink/Reads.antt =====
-- "Check socket read" of `check_tcp_socket` (app/src/main/cpp/tcp.c), seen by the client.
use mathlib.Core.Path.{subst}
use mathlib.Core.List.{append-nil}
use mobile_injection.Base.{
  ℕ, ◌+◌, ◌≡◌, refl, sym, ◌∙◌, ap, arith, Bool, true, false, ◌&&◌, ◌||◌, inl, inr, List, [], ◌∷◌,
  ◌++◌, is_neg, length, add32, ltb, if◌then◌else◌, Bool-cases,
}
use mobile_injection.Types.{TcpState, Segment, state_eq, epollin}
use mobile_injection.System.{System, Event, Received}
use mobile_injection.Held.{has_event}
use mobile_injection.Tcp.State.{St, stamp}
use mobile_injection.Tcp.Write.{write_flags, write_data, write_fin_ack, write_rst, fin_ack_flags}
use mobile_injection.Tcp.Window.{get_send_window}
use mobile_injection.Tcp.Socket.{
  receive_eof, receive_data, receive_result, read_segment, receive, set_state,
}
use mobile_injection.Tcp.Downlink.Written.{write_flags-seen}
use mobile_injection.Tcp.Downlink.{client, came, given, HasFields, take_chunk-empty}
use mobile_injection.Tcp.Downlink.Follows.{
  is_live, Follows, Follows-closed, write_rst-Follows, write_data-Follows,
}

-- The states in which the socket is read.
abbrev is_reading : TcpState → Bool
is_reading state = state_eq state TcpState.established || state_eq state TcpState.close_wait

-- The client has all that the socket gave, and the session is past TCP_SYN_RECV.
abbrev IsWhole : System → (version isn : ℕ) → St → Type 0
IsWhole sys version isn st =
    HasFields st.cur
    × ((st.cur.version ≡ version)
        × (((client sys version isn st.trace).stream ≡ came sys st.trace)
            × (state_eq st.cur.state TcpState.syn_recv ≡ false)))

-- The FIN counts as one byte, if it was written.
abbrev counted : (failed : Bool) → St → St
counted failed st =
    if failed
    then st
    else record st { cur = record st.cur { local_seq = add32 st.cur.local_seq 1 } }

-- The states behind the FIN.
abbrev after_fin : St → St
after_fin st =
    if state_eq st.cur.state TcpState.established
    then set_state TcpState.fin_wait1 st
    else if state_eq st.cur.state TcpState.close_wait
    then set_state TcpState.last_ack st
    else st

module _ (sys : System) (version isn : ℕ) where
  IsWhole-counted :
      (failed : Bool) (st : St)
      → IsWhole sys version isn st
      → IsWhole sys version isn (counted failed st)
  IsWhole-counted true st w = w
  IsWhole-counted false st (h, w) = ((h.0, ((omega arith, h.1.0.1), h.1.1)), w)

  ended-Follows :
      (st : St)
      → IsWhole sys version isn st
      → is_live st.cur.state ≡ false
      → Follows sys version isn st
  ended-Follows st (h, (v, (whole, past))) e = (h, (v, ([], (append-nil _ ∙ whole, inl e))))

  past :
      (st : St) (state : TcpState)
      → IsWhole sys version isn st
      → state_eq state TcpState.syn_recv ≡ false
      → IsWhole sys version isn (set_state state st)
  past st state (h, (v, (whole, before))) e = (h, (v, (whole, e)))

  after_fin-Follows :
      (st : St) → IsWhole sys version isn st → Follows sys version isn (after_fin st)
  after_fin-Follows st w = elim (Bool-cases (state_eq st.cur.state TcpState.established)) [
    | inl e ↦
        rw e
          (ended-Follows (set_state TcpState.fin_wait1 st) (past st TcpState.fin_wait1 w refl) refl)
    | inr e ↦ elim (Bool-cases (state_eq st.cur.state TcpState.close_wait)) [
      | inl f ↦
          rw (e, f)
            (ended-Follows (set_state TcpState.last_ack st) (past st TcpState.last_ack w refl) refl)
      | inr f ↦ rw (e, f) (ended-Follows st w (rw (w.1.1.1, e, f) refl))
    ]
  ]

  fin-IsWhole :
      (st : St)
      → IsWhole sys version isn st
      → IsWhole sys version isn (write_flags sys [] fin_ack_flags st).1
  fin-IsWhole st (h, (v, (whole, before))) =
      let (kept, result) = write_flags-seen sys version isn [] fin_ack_flags st h v refl in
      elim result [
        | inl (failed, (cur, unseen)) ↦ rw (cur, unseen, kept) (h, (v, (whole, refl)))
        | inr (went, (cur, taken)) ↦
            rw (cur, taken, kept)
              (h, (v, (take_chunk-empty _ (client sys version isn st.trace) ∙ whole, before)))
      ]

  queue-Follows :
      (queue : List Segment) (st st' : St)
      → Follows sys version isn st
      → Follows sys version isn st'
      → Follows sys version isn (elim queue [ [] ↦ st | q ∷ rest ↦ st' ])
  queue-Follows [] st st' f g = f
  queue-Follows (q ∷ rest) st st' f g = g

  -- The FIN, or the reset if data is queued, ends the reading.
  eof-Follows :
      (st : St)
      → IsWhole sys version isn st
      → Follows sys version isn st
      → Follows sys version isn (receive_eof sys st)
  unfolding receive_eof write_fin_ack
  eof-Follows st w f =
      let r = write_flags sys [] fin_ack_flags st in
      let ended = after_fin (counted (is_neg r.0) r.1) in
      let last : St = elim st.cur.forward [ [] ↦ ended | q ∷ rest ↦ write_rst sys st ] in
      Follows-closed sys version isn last (
        queue-Follows st.cur.forward ended (write_rst sys st)
          (after_fin-Follows (counted (is_neg r.0) r.1)
            (IsWhole-counted (is_neg r.0) r.1 (fin-IsWhole st w)))
          (write_rst-Follows sys version isn st f))

  receive_result-Follows :
      (r : Received) (st : St)
      → HasFields st.cur
      → st.cur.version ≡ version
      → state_eq st.cur.state TcpState.syn_recv ≡ false
      → (client sys version isn st.trace).next ≡ st.cur.local_seq
      → (client sys version isn st.trace).stream ++ given r ≡ came sys st.trace
      → Follows sys version isn (receive_result sys r st)
  unfolding receive_result receive_data write_data
  receive_result-Follows (Received.bytes []) st h v past_syn next all =
      eof-Follows st (h, (v, (sym (append-nil _) ∙ all, past_syn)))
        (h, (v, ([], (all, inr (refl, next)))))
  receive_result-Follows (Received.bytes (b ∷ bs)) st h v past_syn next all =
      write_data-Follows sys version isn (b ∷ bs)
        (record st { cur = record st.cur { received = st.cur.received + length (b ∷ bs) } }) h v
        next all
  receive_result-Follows Received.recv_again st h v past_syn next all =
      (h, (v, ([], (all, inr (refl, next)))))
  receive_result-Follows Received.recv_failed st h v past_syn next all =
      write_rst-Follows sys version isn st (h, (v, ([], (all, inr (refl, next)))))

  read_segment-Follows :
      (window : ℕ) (st : St)
      → is_reading st.cur.state ≡ true
      → Follows sys version isn st
      → Follows sys version isn (read_segment sys window st)
  unfolding read_segment client came
  read_segment-Follows window st reads (h, (v, (lost, (whole, ends)))) = elim ends [
    | inl over ↦ absurd (ground (arith, reads, over))
    | inr (none, next) ↦
        let size = if ltb st.cur.mss window then st.cur.mss else window in
        let st1 = stamp sys st in
        let gave = sys.recv st1.trace st1.socket size in
        let stream = (client sys version isn st.trace).stream in
        let all : stream ≡ came sys st.trace =
          sym (append-nil stream) ∙ subst (λ l. stream ++ l ≡ came sys st.trace) none whole in
        receive_result-Follows gave
          (record st1 { trace = Event.received st1.socket size ∷ st1.trace }) h v
          (ground (arith, reads)) next (ap (λ l. l ++ given gave) all)
  ]

  reading_lem : (a b : Bool) → a && b ≡ true → a ≡ true
  reading_lem a b h = ground (arith, h)

  pub receive-Follows :
      (events : ℕ) (st : St)
      → Follows sys version isn st
      → Follows sys version isn (receive sys events st)
  unfolding receive
  receive-Follows events st f =
      let window = get_send_window st.cur in
      let readable = has_event events epollin && ltb 0 window in
      elim (Bool-cases (is_reading st.cur.state && readable)) [
        | inl goes ↦ rw goes (read_segment-Follows window st (reading_lem _ readable goes) f)
        | inr stays ↦ rw stays f
      ]
