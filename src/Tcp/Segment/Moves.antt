-- ===== src/Tcp/Segment/Moves.antt =====
-- The state machine of a session: which state may follow which when a segment comes to `handle_tcp`
-- (app/src/main/cpp/tcp.c).
use mobile_injection.Base.{
  ℕ, ◌≡◌, refl, sym, arith, Bool, true, false, ◌&&◌, ◌||◌, not, is_neg, List, [], ◌∷◌, ◌⊎◌, inl,
  inr, Bool-cases,
}
use mobile_injection.Types.{TcpState, state_eq}
use mobile_injection.System.{System}
use mobile_injection.Net.Decode.{TcpHeader}
use mobile_injection.Tcp.State.{St}
use mobile_injection.Tcp.Write.{write_flags, write_rst, write_ack}
use mobile_injection.Tcp.Queue.{queue_tcp}
use mobile_injection.Tcp.Timeout.{is_closed}
use mobile_injection.Tcp.Queue.State.{queue_tcp-state}
use mobile_injection.Tcp.Segment.{
  acknowledge_fin, receive_fin, receive_ack, receive_other_ack, receive_flags, receive_data,
  receive_segment,
}

-- The moves of the state machine of RFC 793 that a segment of the client may cause, with TCP_CLOSING
-- for a session that is given up.
pub data Moves : TcpState → TcpState → Type 0 where
  stays : {s : TcpState} → Moves s s
  gives_up : {s : TcpState} → is_closed s ≡ false → Moves s TcpState.closing
  -- the handshake is complete
  establishes : Moves TcpState.syn_recv TcpState.established
  -- the client's FIN
  half_closes : Moves TcpState.established TcpState.close_wait
  both_closed : Moves TcpState.fin_wait1 TcpState.close

unfoldable may_move : TcpState → TcpState → Bool
may_move s t =
    state_eq s t
    || (not (is_closed s) && state_eq t TcpState.closing
        || (state_eq s TcpState.syn_recv && state_eq t TcpState.established
            || (state_eq s TcpState.established && state_eq t TcpState.close_wait
                || state_eq s TcpState.fin_wait1 && state_eq t TcpState.close)))

state_eq→eq : (s t : TcpState) → state_eq s t ≡ true → s ≡ t
state_eq→eq s t h = ground arith

Moves-between : {s t u v : TcpState} → Moves s t → u ≡ s → v ≡ t → Moves u v
Moves-between m e f = rw (e, f) m

or_cases : (a b : Bool) → (a || b) ≡ true → (a ≡ true) ⊎ (b ≡ true)
or_cases true b h = inl refl
or_cases false b h = inr h

both : (a b : Bool) → (a && b) ≡ true → (a ≡ true) × (b ≡ true)
both a b h = ground arith

may_move-Moves : (s t : TcpState) → may_move s t ≡ true → Moves s t
unfolding may_move
may_move-Moves s t h = elim (or_cases (state_eq s t) _ h) [
  | inl same ↦ Moves-between stays refl (sym (state_eq→eq s t same))
  | inr h1 ↦ elim (or_cases (not (is_closed s) && state_eq t TcpState.closing) _ h1) [
    | inl e ↦
        let (alive, ends) = both (not (is_closed s)) (state_eq t TcpState.closing) e in
        Moves-between (gives_up (ground arith)) refl (state_eq→eq t TcpState.closing ends)
    | inr h2 ↦
        elim (or_cases (state_eq s TcpState.syn_recv && state_eq t TcpState.established) _ h2) [
          | inl e ↦
              let (e1, e2) =
                both (state_eq s TcpState.syn_recv) (state_eq t TcpState.established) e in
              Moves-between establishes (state_eq→eq s TcpState.syn_recv e1)
                (state_eq→eq t TcpState.established e2)
          | inr h3 ↦
              elim (or_cases (state_eq s TcpState.established && state_eq t TcpState.close_wait) _
                h3) [
                  | inl e ↦
                      let (e1, e2) =
                        both (state_eq s TcpState.established) (state_eq t TcpState.close_wait) e in
                      Moves-between half_closes (state_eq→eq s TcpState.established e1)
                        (state_eq→eq t TcpState.close_wait e2)
                  | inr e ↦
                      let (e1, e2) =
                        both (state_eq s TcpState.fin_wait1) (state_eq t TcpState.close) e in
                      Moves-between both_closed (state_eq→eq s TcpState.fin_wait1 e1)
                        (state_eq→eq t TcpState.close e2)
                ]
        ]
  ]
]

write_rst-moves :
    (sys : System) (st : St) → may_move st.cur.state (write_rst sys st).cur.state ≡ true
unfolding write_rst may_move
write_rst-moves sys st = ground arith

pub write_rst-Moves : (sys : System) (st : St) → Moves st.cur.state (write_rst sys st).cur.state
write_rst-Moves sys st =
    may_move-Moves st.cur.state (write_rst sys st).cur.state (write_rst-moves sys st)

receive_flags-moves :
    (sys : System) (hdr : TcpHeader) (st : St)
    → is_closed st.cur.state ≡ false
    → may_move st.cur.state (receive_flags sys hdr st).cur.state ≡ true
unfolding receive_flags receive_fin receive_ack receive_other_ack acknowledge_fin write_ack
    write_flags write_rst may_move
receive_flags-moves sys hdr st h = ground arith

receive_flags-moves-from :
    (sys : System) (hdr : TcpHeader) (st : St) (s : TcpState)
    → st.cur.state ≡ s
    → is_closed s ≡ false
    → may_move s (receive_flags sys hdr st).cur.state ≡ true
receive_flags-moves-from sys hdr st s e h =
    let moves = receive_flags-moves sys hdr st (rw e h) in rw (← e) moves

receive_data-moves :
    (sys : System) (hdr : TcpHeader) (bytes : List ℕ) (st : St)
    → is_closed st.cur.state ≡ false
    → may_move st.cur.state (receive_data sys hdr bytes st).cur.state ≡ true
unfolding receive_data
receive_data-moves sys hdr [] st h = receive_flags-moves sys hdr st h
receive_data-moves sys hdr (b ∷ bs) st h =
    let cur1 = queue_tcp hdr.seq hdr.psh (b ∷ bs) st.cur in
    let same = queue_tcp-state hdr.seq hdr.psh (b ∷ bs) st.cur in
    let queued = receive_flags-moves-from sys hdr (record st { cur = cur1 }) st.cur.state same h in
    elim (Bool-cases (is_neg st.socket || state_eq st.cur.state TcpState.close_wait)) [
      | inl late ↦ rw late (write_rst-moves sys st)
      | inr open_both ↦ rw open_both queued
    ]

-- A segment of a session past the CONNECT: the session stays in its state or makes a move of the state
-- machine.
pub receive_segment-Moves :
    (sys : System) (hdr : TcpHeader) (bytes : List ℕ) (st : St)
    → Moves st.cur.state (receive_segment sys hdr bytes st).cur.state
unfolding receive_segment
receive_segment-Moves sys hdr bytes st =
    may_move-Moves st.cur.state (receive_segment sys hdr bytes st).cur.state
      (elim (Bool-cases (is_closed st.cur.state)) [
        | inl closed ↦ rw closed (write_rst-moves sys st)
        | inr alive ↦ rw alive (receive_data-moves sys hdr bytes _ alive)
      ])
