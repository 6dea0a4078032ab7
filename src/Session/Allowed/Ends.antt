-- ===== src/Session/Allowed/Ends.antt =====
-- What `clear` and `check_allowed` (app/src/main/cpp/session.c) leave.
use mobile_injection.Base.{
  ◌≡◌, refl, sym, ◌∙◌, ap, Bool, true, false, not, is_neg, ◌⊎◌, inl, inr, List, [], ◌∷◌, ◌++◌, All,
  arith, Bool-cases, if◌then◌else◌,
}
use mathlib.Core.List.{append_assoc}
use mobile_injection.Types.{NgSession, Ng, UdpSession, UdpState}
use mobile_injection.System.{System, Trace, Event}
use mobile_injection.Held.{of_ng}
use mobile_injection.Tcp.State.{St}
use mobile_injection.Tcp.Write.{write_rst}
use mobile_injection.Tcp.Timeout.{is_closed}
use mobile_injection.Session.Count.{is_active, socket_of}
use mobile_injection.Session.Allowed.{disallow_udp, check_allowed, close_all, clear}

-- The event stands in the trace.
abbrev pub Logged : Event → Trace → Type 0
Logged e tr = (front : Trace) × (back : Trace) × (tr ≡ front ++ (e ∷ back))

-- Its socket is not open, or has been closed.
abbrev pub HasClosed : Trace → NgSession → Type 0
HasClosed tr s = (is_neg (socket_of s) ≡ true) ⊎ Logged (Event.closed (socket_of s)) tr

-- The trace grows in front.
close_all-grows :
    (list : List NgSession) (tr : Trace) → (front : Trace) × (close_all list tr ≡ front ++ tr)
unfolding close_all
close_all-grows [] tr = ([], refl)
close_all-grows (s ∷ rest) tr =
    grown (is_neg (socket_of s)) (close_all-grows rest tr)
      (close_all-grows rest (Event.closed (socket_of s) ∷ tr))
  where
    grown :
        (b : Bool)
        → ((front : Trace) × (close_all rest tr ≡ front ++ tr))
        → ((front : Trace) × (close_all rest (Event.closed (socket_of s) ∷ tr)
              ≡ front ++ (Event.closed (socket_of s) ∷ tr)))
        → (front : Trace) × (close_all rest (if b then tr else Event.closed (socket_of s) ∷ tr)
            ≡ front ++ tr)
    grown true h k = h
    grown false h (front, e) = (
      front ++ (Event.closed (socket_of s) ∷ []),
      e ∙ sym (append_assoc front (Event.closed (socket_of s) ∷ []) tr),
    )

close_all-closes : (list : List NgSession) (tr : Trace) → All (HasClosed (close_all list tr)) list
unfolding close_all
close_all-closes [] tr = tt
close_all-closes (s ∷ rest) tr = (own (is_neg (socket_of s)) refl, close_all-closes rest _)
  where
    own :
        (b : Bool)
        → is_neg (socket_of s) ≡ b
        → (is_neg (socket_of s) ≡ true)
          ⊎ Logged
              (Event.closed (socket_of s))
              (close_all rest (if b then tr else Event.closed (socket_of s) ∷ tr))
    own true e = inl e
    own false e =
        let (front, whole) = close_all-grows rest (Event.closed (socket_of s) ∷ tr) in
        inr (front, tr, whole)

-- After `clear` the list is empty, and for every session that it held: the socket was not open, or it has
-- been closed.
pub clear-closes :
    (list : List NgSession) (tr : Trace)
    → ((clear list tr).0 ≡ []) × All (HasClosed (clear list tr).1) list
unfolding clear
clear-closes list tr = (refl, close_all-closes list tr)

write_rst-closed : (sys : System) (st : St) → is_closed (write_rst sys st).cur.state ≡ true
unfolding write_rst
write_rst-closed sys st = ground arith

disallow_tcp-ends :
    (sys : System) (st : St)
    → is_closed (if is_closed st.cur.state then st else write_rst sys st).cur.state ≡ true
disallow_tcp-ends sys st = elim (Bool-cases (is_closed st.cur.state)) [
  | inl over ↦ rw over over
  | inr alive ↦ rw alive (write_rst-closed sys st)
]

disallow_udp-ends :
    (state : UdpState) (s : Ng UdpSession) (list : List NgSession)
    → s.session.state ≡ state
    → All (λ t. is_active t ≡ false) list
    → All (λ t. is_active t ≡ false) (disallow_udp state s list)
unfolding disallow_udp is_active
disallow_udp-ends UdpState.udp_active s list e all = (refl, all)
disallow_udp-ends UdpState.udp_finishing s list e all = (rw e refl, all)
disallow_udp-ends UdpState.udp_closed s list e all = (rw e refl, all)
disallow_udp-ends UdpState.udp_blocked s list e all = all

-- No session is active after `check_allowed`, whatever the sessions were and whether the tun device takes
-- the packets that end the TCP connections.
pub check_allowed-ends :
    (sys : System) (list : List NgSession) (tr : Trace)
    → All (λ s. is_active s ≡ false) (check_allowed sys list tr).0
unfolding check_allowed is_active
check_allowed-ends sys [] tr = tt
check_allowed-ends sys (NgSession.icmp s ∷ rest) tr = (refl, check_allowed-ends sys rest tr)
check_allowed-ends sys (NgSession.udp s ∷ rest) tr =
    disallow_udp-ends s.session.state s _ refl (check_allowed-ends sys rest tr)
check_allowed-ends sys (NgSession.tcp s ∷ rest) tr =
    (ap not (disallow_tcp-ends sys (of_ng s tr)), check_allowed-ends sys rest _)
