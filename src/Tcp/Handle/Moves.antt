-- ===== src/Tcp/Handle/Moves.antt =====
-- The states of a session of a segment in `handle_tcp` (app/src/main/cpp/tcp.c), the CONNECT for port 443
-- included.
use mobile_injection.Base.{
  ℕ, ◌≡◌, refl, sym, ◌∙◌, arith, Bool, true, false, not, ◌&&◌, ◌⊎◌, inl, inr, Bool-cases, List, [],
  ◌∷◌, ◌==◌, ==→eq, if◌then◌else◌,
}
use mathlib.Core.Path.{subst}
use mobile_injection.Types.{TcpState, ConnectSent, connect_eq}
use mobile_injection.System.{System, Event, Sent}
use mobile_injection.Net.Decode.{TcpHeader}
use mobile_injection.Tcp.State.{St}
use mobile_injection.Tcp.Write.{write_rst}
use mobile_injection.Tcp.Queue.{queue_tcp}
use mobile_injection.Tcp.Queue.State.{queue_tcp-state}
use mobile_injection.Tcp.Segment.{receive_segment}
use mobile_injection.Tcp.Segment.Moves.{Moves, write_rst-Moves, receive_segment-Moves}
use mobile_injection.Tcp.Connect.{
  connect_host, connect_request, send_connect, set_hostname, has_name, connect_proxy,
}
use mobile_injection.Tcp.Handle.{found_session}

-- What the first part for port 443 does: nothing to the state; a reset, with CONNECT still to be sent; or the
-- CONNECT, with which the session waits for the proxy.
abbrev Connects : St → St → Type 0
Connects st st1 =
    ((st1.cur.state ≡ st.cur.state) × (st1.cur.connect_sent ≡ st.cur.connect_sent))
    ⊎ (((st1.cur.connect_sent ≡ ConnectSent.connect_not_sent) × Moves st.cur.state st1.cur.state)
        ⊎ ((st.cur.connect_sent ≡ ConnectSent.connect_not_sent)
            × ((st1.cur.connect_sent ≡ ConnectSent.connect_is_sent)
                × (st1.cur.state ≡ TcpState.listen))))

connect_eq→eq :
    (s : ConnectSent)
    → connect_eq s ConnectSent.connect_not_sent ≡ true
    → s ≡ ConnectSent.connect_not_sent
connect_eq→eq s h = ground (arith, h)

write_rst-connect :
    (sys : System) (st : St) → (write_rst sys st).cur.connect_sent ≡ st.cur.connect_sent
unfolding write_rst
write_rst-connect sys st = ground arith

send_connect-Connects :
    (sys : System) (st : St)
    → st.cur.connect_sent ≡ ConnectSent.connect_not_sent
    → Connects st (send_connect sys st)
unfolding send_connect
send_connect-Connects sys st e =
    sent (sys.send st.trace st.socket (connect_request st.cur.hostname) false)
  where
    st1 : St
    st1 = record st {
      trace = Event.sent st.socket (connect_request st.cur.hostname) false ∷ st.trace;
    }

    sent :
        (r : Sent)
        → Connects st (elim r [
          | Sent.count n ↦ record st1 {
            cur = record st1.cur {
              connect_sent = ConnectSent.connect_is_sent;
              state = TcpState.listen;
            };
          }
          | _ ↦ write_rst sys st1
        ])
    sent (Sent.count n) = inr (inr (e, (refl, refl)))
    sent Sent.send_again = inr (inl (write_rst-connect sys st1 ∙ e, write_rst-Moves sys st1))
    sent Sent.send_failed = inr (inl (write_rst-connect sys st1 ∙ e, write_rst-Moves sys st1))

set_hostname-kept :
    (host : List ℕ) (st : St)
    → let st1 : St = record st { cur = set_hostname host st.cur } in
      (st1.cur.state ≡ st.cur.state) × (st1.cur.connect_sent ≡ st.cur.connect_sent)
unfolding set_hostname
set_hostname-kept [] st = (refl, refl)
set_hostname-kept (c ∷ rest) st = (refl, refl)

Connects-from :
    (st st1 st2 : St)
    → (st1.cur.state ≡ st.cur.state) × (st1.cur.connect_sent ≡ st.cur.connect_sent)
    → Connects st1 st2
    → Connects st st2
Connects-from st st1 st2 (state, connect) (inl (a, b)) = inl (a ∙ state, b ∙ connect)
Connects-from st st1 st2 (state, connect) (inr (inl (a, b))) =
    inr (inl (a, subst (λ s. Moves s st2.cur.state) state b))
Connects-from st st1 st2 (state, connect) (inr (inr (a, b))) = inr (inr (sym connect ∙ a, b))

connect_proxy-Connects :
    (sys : System) (hostname : List ℕ) (st : St) → Connects st (connect_proxy sys hostname st)
unfolding connect_proxy
connect_proxy-Connects sys hostname st =
    let host = connect_host sys hostname st.cur in
    let st1 : St = record st { cur = set_hostname host st.cur } in
    let kept = set_hostname-kept host st in
    elim (Bool-cases
      (connect_eq st1.cur.connect_sent ConnectSent.connect_not_sent && has_name host)) [
        | inl sends ↦ rw sends (
            Connects-from st st1 (send_connect sys st1) kept (
              send_connect-Connects sys st1
                (connect_eq→eq st1.cur.connect_sent (first _ (has_name host) sends))))
        | inr waits ↦ rw waits (inl kept)
      ]
  where
    first : (a b : Bool) → a && b ≡ true → a ≡ true
    first a b h = ground (arith, h)

queue_tcp-Moves :
    (hdr : TcpHeader) (bytes : List ℕ) (s : TcpState) (st : St)
    → Moves s st.cur.state
    → Moves s (queue_tcp hdr.seq hdr.psh bytes st.cur).state
queue_tcp-Moves hdr bytes s st m =
    subst (λ t. Moves s t) (sym (queue_tcp-state hdr.seq hdr.psh bytes st.cur)) m

-- What is done behind the part for port 443.
abbrev proceed : System → TcpHeader → List ℕ → (waits : Bool) → St → St
proceed sys hdr bytes waits st1 =
    if waits
    then record st1 { cur = queue_tcp hdr.seq hdr.psh bytes st1.cur }
    else receive_segment sys hdr bytes st1

proceed-Moves :
    (sys : System) (hdr : TcpHeader) (bytes : List ℕ) (waits : Bool) (st st1 : St)
    → st1.cur.state ≡ st.cur.state
    → Moves st.cur.state (proceed sys hdr bytes waits st1).cur.state
proceed-Moves sys hdr bytes true st st1 e =
    queue_tcp-Moves hdr bytes st.cur.state st1 (subst (λ s. Moves s st1.cur.state) e Moves.stays)
proceed-Moves sys hdr bytes false st st1 e =
    subst (λ s. Moves s (receive_segment sys hdr bytes st1).cur.state) e
      (receive_segment-Moves sys hdr bytes st1)

-- A segment of a session that `handle_tcp` has found, without the URG flag: the session stays in its state or
-- makes a move of the state machine, with one exception. A segment to port 443 may send the CONNECT if
-- none was sent, and sets the session to TCP_LISTEN then, whatever its state was.
pub found_session-Moves :
    (sys : System) (hdr : TcpHeader) (hostname bytes : List ℕ) (st : St)
    → let after = (found_session sys hdr hostname bytes st).cur.state in
      Moves st.cur.state after
      ⊎ ((hdr.dest ≡ 443)
          × ((st.cur.connect_sent ≡ ConnectSent.connect_not_sent) × (after ≡ TcpState.listen)))
unfolding found_session
found_session-Moves sys hdr hostname bytes st = elim (Bool-cases (hdr.dest == 443)) [
  | inr other ↦ rw other (inl (receive_segment-Moves sys hdr bytes st))
  | inl web ↦
      let st1 = connect_proxy sys hostname st in
      let waits = not (connect_eq st1.cur.connect_sent ConnectSent.connect_established) in
      elim (connect_proxy-Connects sys hostname st) [
        | inl (state, connect) ↦ rw web (inl (proceed-Moves sys hdr bytes waits st st1 state))
        | inr (inl (unsent, moves)) ↦
            rw (web, unsent) (inl (queue_tcp-Moves hdr bytes st.cur.state st1 moves))
        | inr (inr (unsent, (sent, listens))) ↦
            rw (web, sent)
              (inr (
                ==→eq hdr.dest 443 web,
                (unsent, queue_tcp-state hdr.seq hdr.psh bytes st1.cur ∙ listens),
              ))
      ]
]
