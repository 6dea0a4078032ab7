-- ===== src/Session/Check/Settled.antt =====
-- The sockets in the check of a session (app/src/main/cpp/session.c): a session keeps its socket, or closes it.
use mathlib.Core.Path.{subst}
use mobile_injection.Base.{
  ℕ, ◌≡◌, refl, arith, Bool, true, false, ◌⊎◌, inl, inr, is_neg, [], ◌∷◌, ℤ, Bool-cases,
  if◌then◌else◌,
}
use mobile_injection.Types.{
  NgSession, UdpSession, UdpState, udp_state_eq, IcmpSession, TcpState, state_eq,
}
use mobile_injection.System.{System, Trace, Event}
use mobile_injection.Held.{Held, of_ng, close_socket}
use mobile_injection.Tcp.State.{St}
use mobile_injection.Tcp.Write.{write_rst}
use mobile_injection.Tcp.Timeout.{expire, finish, reset_counters, check_tcp_session}
use mobile_injection.Udp.Timer.{expire_udp, finish_udp, reset_udp, check_udp_session}
use mobile_injection.Icmp.Timer.{check_icmp_session}
use mobile_injection.Session.Count.{socket_of}
use mobile_injection.Session.Check.{check_session}
use mobile_injection.Session.Allowed.Ends.{Logged}

-- The session still has the socket, or has none, and the socket has been closed.
abbrev pub Settled : (before after : ℤ) → Trace → Type 0
Settled before after tr =
    (after ≡ before) ⊎ ((is_neg after ≡ true) × Logged (Event.closed before) tr)

expire-socket : (sys : System) (n m now : ℕ) (st : St) → (expire sys n m now st).socket ≡ st.socket
unfolding expire write_rst
expire-socket sys n m now st = ground arith

finish-Settled :
    (sys : System) (st : St) → let r = finish sys st in Settled st.socket r.socket r.trace
unfolding finish
finish-Settled sys st = elim (Bool-cases (state_eq st.cur.state TcpState.closing)) [
  | inl e ↦ elim (Bool-cases (is_neg st.socket)) [
    | inl none ↦ rw (e, none) (inl refl)
    | inr open_socket ↦ rw (e, open_socket) (inr (refl, (Event.asked_time ∷ [], st.trace, refl)))
  ]
  | inr e ↦ rw e (inl refl)
]

reset_counters-Settled :
    (before : ℤ) (st : St)
    → Settled before st.socket st.trace
    → let r = reset_counters st in Settled before r.socket r.trace
unfolding reset_counters
reset_counters-Settled before st h = kept _ h
  where
    kept :
        (b : Bool)
        → Settled before st.socket st.trace
        → let r : St =
            if b then record st { cur = record st.cur { sent = 0; received = 0 } } else st in
          Settled before r.socket r.trace
    kept true k = k
    kept false k = k

check_tcp_session-Settled :
    (sys : System) (n m : ℕ) (st : St)
    → let r = check_tcp_session sys n m st in Settled st.socket r.1.socket r.1.trace
unfolding check_tcp_session
check_tcp_session-Settled sys n m st =
    let st1 : St = record st { trace = Event.asked_time ∷ st.trace } in
    let st2 = expire sys n m (sys.time st.trace) st1 in
    let same : st2.socket ≡ st.socket = expire-socket sys n m (sys.time st.trace) st1 in
    reset_counters-Settled st.socket (finish sys st2) (
      subst (λ fd. Settled fd (finish sys st2).socket (finish sys st2).trace) same
        (finish-Settled sys st2))

expire_udp-same :
    (n m now : ℕ) (st : Held UdpSession) → let r = expire_udp n m now st in (r.socket ≡ st.socket)
unfolding expire_udp
expire_udp-same n m now st = ground arith

finish_udp-Settled :
    (sys : System) (st : Held UdpSession)
    → let r = finish_udp sys st in Settled st.socket r.socket r.trace
unfolding finish_udp
finish_udp-Settled sys st = elim (Bool-cases (udp_state_eq st.cur.state UdpState.udp_finishing)) [
  | inl e ↦ rw e (inr (refl, (Event.asked_time ∷ [], st.trace, refl)))
  | inr e ↦ rw e (inl refl)
]

reset_udp-Settled :
    (before : ℤ) (st : Held UdpSession)
    → Settled before st.socket st.trace
    → let r = reset_udp st in Settled before r.socket r.trace
unfolding reset_udp
reset_udp-Settled before st h = kept _ h
  where
    kept :
        (b : Bool)
        → Settled before st.socket st.trace
        → let r : Held UdpSession =
            if b then record st { cur = record st.cur { sent = 0; received = 0 } } else st in
          Settled before r.socket r.trace
    kept true k = k
    kept false k = k

check_udp_session-Settled :
    (sys : System) (n m : ℕ) (st : Held UdpSession)
    → let r = check_udp_session sys n m st in Settled st.socket r.1.socket r.1.trace
unfolding check_udp_session
check_udp_session-Settled sys n m st =
    let st1 : Held UdpSession = record st { trace = Event.asked_time ∷ st.trace } in
    let st2 = expire_udp n m (sys.time st.trace) st1 in
    let same : st2.socket ≡ st.socket = expire_udp-same n m (sys.time st.trace) st1 in
    reset_udp-Settled st.socket (finish_udp sys st2) (
      subst (λ fd. Settled fd (finish_udp sys st2).socket (finish_udp sys st2).trace) same
        (finish_udp-Settled sys st2))

check_icmp_session-Settled :
    (sys : System) (n m : ℕ) (st : Held IcmpSession)
    → let r = check_icmp_session sys n m st in Settled st.socket r.1.socket r.1.trace
unfolding check_icmp_session
check_icmp_session-Settled sys n m st = stopped _
  where
    st1 : Held IcmpSession
    st1 = record st { trace = Event.asked_time ∷ st.trace }

    stopped :
        (b : Bool)
        → let r : Bool × Held IcmpSession = if b then (true, close_socket st1) else (false, st1) in
          Settled st.socket r.1.socket r.1.trace
    stopped true = inr (refl, ([], st1.trace, refl))
    stopped false = inl refl

pub check_session-Settled :
    (sys : System) (n m : ℕ) (s : NgSession) (tr : Trace)
    → let r = check_session sys n m s tr in Settled (socket_of s) (socket_of r.1) r.2
unfolding check_session socket_of
check_session-Settled sys n m (NgSession.icmp s) tr =
    check_icmp_session-Settled sys n m (of_ng s tr)
check_session-Settled sys n m (NgSession.udp s) tr = check_udp_session-Settled sys n m (of_ng s tr)
check_session-Settled sys n m (NgSession.tcp s) tr = check_tcp_session-Settled sys n m (of_ng s tr)
