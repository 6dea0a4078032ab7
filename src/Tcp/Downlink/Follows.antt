-- ===== src/Tcp/Downlink/Follows.antt =====
-- The client of a session follows it: what the functions of app/src/main/cpp/tcp.c that write packets keep.
use mathlib.Core.List.{append-nil}
use mobile_injection.Base.{
  ℕ, ◌≡◌, refl, ◌∙◌, ap, arith, Bool, true, false, ◌||◌, ◌⊎◌, inl, inr, List, [], ◌++◌, is_neg,
  length, add32, if◌then◌else◌, Bool-cases,
}
use mobile_injection.Types.{TcpSession, TcpState, state_eq}
use mobile_injection.System.{System}
use mobile_injection.Held.{close_socket}
use mobile_injection.Tcp.State.{St}
use mobile_injection.Tcp.Packet.{Flags}
use mobile_injection.Tcp.Write.{write_flags, write_rst, write_tcp, ack_flags}
use mobile_injection.Tcp.Socket.{set_state}
use mobile_injection.Tcp.Downlink.Written.{write_flags-seen, empty-seen}
use mobile_injection.Tcp.Downlink.{client, came, HasFields, take_chunk-empty, take_chunk-next}

-- The states in which the socket is read, and that before them.
abbrev pub is_live : TcpState → Bool
is_live state =
    state_eq state TcpState.syn_recv
    || (state_eq state TcpState.established || state_eq state TcpState.close_wait)

-- What the client has is a beginning of what the socket gave. While the session is live it is all
-- of it, and the client waits for the number that the session sends next.
abbrev pub Follows : System → (version isn : ℕ) → St → Type 0
Follows sys version isn st =
    HasFields st.cur
    × ((st.cur.version ≡ version)
        × ((lost : List ℕ) × (((client sys version isn st.trace).stream ++ lost ≡ came sys st.trace)
              × ((is_live st.cur.state ≡ false)
                  ⊎ ((lost ≡ []) × ((client sys version isn st.trace).next ≡ st.cur.local_seq))))))

module _ (sys : System) (version isn : ℕ) where
  pub Follows-if :
      (b : Bool) (st st' : St)
      → Follows sys version isn st
      → Follows sys version isn st'
      → Follows sys version isn (if b then st else st')
  Follows-if true st st' f g = f
  Follows-if false st st' f g = g

  -- A live session may go to any state, another to any that is not live.
  pub Follows-goes :
      (state : TcpState) (st : St)
      → (is_live st.cur.state ≡ true) ⊎ (is_live state ≡ false)
      → Follows sys version isn st
      → Follows sys version isn (set_state state st)
  Follows-goes state st (inr e) (h, (v, (lost, (whole, ends)))) = (h, (v, (lost, (whole, inl e))))
  Follows-goes state st (inl e) (h, (v, (lost, (whole, inl over)))) =
      absurd (ground (arith, e, over))
  Follows-goes state st (inl e) (h, (v, (lost, (whole, inr (none, next))))) =
      (h, (v, (lost, (whole, inr (none, next)))))

  pub Follows-closed :
      (st : St) → Follows sys version isn st → Follows sys version isn (close_socket st)
  unfolding client came
  Follows-closed st f = f

  -- A reset ends the reading.
  pub write_rst-Follows :
      (st : St) → Follows sys version isn st → Follows sys version isn (write_rst sys st)
  unfolding write_rst write_tcp came
  write_rst-Follows st (h, (v, (lost, (whole, ends)))) =
      let listening = state_eq st.cur.state TcpState.listen in
      let cur : TcpSession =
        if listening then record st.cur { remote_seq = add32 st.cur.remote_seq 1 } else st.cur in
      let f : Flags = record { syn = false; ack = listening; fin = false; rst = true } in
      let h1 : HasFields cur × (cur.version ≡ version) = elim (Bool-cases listening) [
        | inl e ↦ rw e ((h.0, ((h.1.0.0, omega arith), h.1.1)), v)
        | inr e ↦ rw e (h, v)
      ] in
      let whole1 =
        ap (λ s. s ++ lost) (empty-seen sys version isn cur f st.trace h1.0 h1.1 refl) ∙ whole in
      elim (Bool-cases (state_eq cur.state TcpState.close)) [
        | inl e ↦ rw e (h1.0, (h1.1, (lost, (whole1, inl (ground (arith, e))))))
        | inr e ↦ rw e (h1.0, (h1.1, (lost, (whole1, inl refl))))
      ]

  -- An ACK changes nothing for the client.
  pub write_ack-Follows :
      (st : St)
      → Follows sys version isn st
      → Follows sys version isn (write_flags sys [] ack_flags st).1
  write_ack-Follows st (h, (v, (lost, (whole, ends)))) =
      let (kept, result) = write_flags-seen sys version isn [] ack_flags st h v refl in
      elim result [
        | inl (failed, (cur, unseen)) ↦ rw (cur, unseen, kept) (h, (v, (lost, (whole, inl refl))))
        | inr (went, (cur, taken)) ↦
            rw (cur, taken, kept)
              (
                h,
                (
                  v,
                  (
                    lost,
                    (
                      ap (λ s. s ++ lost) (take_chunk-empty _ (client sys version isn st.trace))
                          ∙ whole,
                      elim ends [
                        | inl over ↦ inl over
                        | inr (none, next) ↦ inr (
                          none,
                          ap (λ c. c.next) (take_chunk-next _ [] _ next)
                              ∙ omega (arith, next, h.1.0.0),
                        )
                      ],
                    ),
                  ),
                ),
              )
      ]

  -- The bytes that are written last, if the client is up to date before and they are what the socket
  -- gave last.
  pub write_data-Follows :
      (bytes : List ℕ) (st : St)
      → HasFields st.cur
      → st.cur.version ≡ version
      → (client sys version isn st.trace).next ≡ st.cur.local_seq
      → (client sys version isn st.trace).stream ++ bytes ≡ came sys st.trace
      → let r = write_flags sys bytes ack_flags st in
        Follows sys version isn (
          if is_neg r.0 then r.1 else record r.1 {
            cur = record r.1.cur { local_seq = add32 r.1.cur.local_seq (length bytes) };
          })
  write_data-Follows bytes st h v next all =
      let now = client sys version isn st.trace in
      let (kept, result) = write_flags-seen sys version isn bytes ack_flags st h v refl in
      elim result [
        | inl (failed, (cur, unseen)) ↦
            rw (failed, cur, unseen, kept) (h, (v, (bytes, (all, inl refl))))
        | inr (went, (cur, taken)) ↦
            let after = taken ∙ take_chunk-next st.cur.local_seq bytes now next in
            rw (went, cur, after, kept)
              (
                (h.0, ((omega arith, h.1.0.1), h.1.1)),
                (v, ([], (append-nil _ ∙ all, inr (refl, ap (λ k. add32 k (length bytes)) next)))),
              )
      ]

  -- An ACK with which the session goes to another state.
  pub write_ack-goes :
      (state : TcpState) (st : St)
      → (is_live st.cur.state ≡ true) ⊎ (is_live state ≡ false)
      → Follows sys version isn st
      → let r = write_flags sys [] ack_flags st in
        Follows sys version isn (if is_neg r.0 then r.1 else set_state state r.1)
  write_ack-goes state st goes f =
      let r = write_flags sys [] ack_flags st in
      let after = write_ack-Follows st f in
      let (kept, result) = write_flags-seen sys version isn [] ack_flags st f.0 f.1.0 refl in
      elim result [
        | inl (failed, rest) ↦ rw failed after
        | inr (went, (cur, taken)) ↦ rw went (Follows-goes state r.1 (rw cur goes) after)
      ]
