-- ===== src/Session/Check.antt =====
-- "Check sessions" of `handle_events` (app/src/main/cpp/session.c).
pub mod Expiry
pub mod Wakeup
pub mod Settled
use mobile_injection.Base.{
  ℕ, Bool, ◌&&◌, List, [], ◌∷◌, ℤ, pos, ◌+ℤ◌, ◌-ℤ◌, ltb_ℤ, is_pos, if◌then◌else◌,
}
use mobile_injection.Types.{NgSession}
use mobile_injection.System.{System, Trace}
use mobile_injection.Held.{to_ng, of_ng}
use mobile_injection.Tcp.Timeout.{get_tcp_timeout, check_tcp_session}
use mobile_injection.Udp.Timer.{get_udp_timeout, check_udp_session}
use mobile_injection.Icmp.Timer.{get_icmp_timeout, check_icmp_session}
use mobile_injection.Session.Count.{is_active}

-- The check of one session: whether it is to be deleted, the session, and the trace.
unfoldable pub check_session :
    System → (sessions maxsessions : ℕ) → NgSession → Trace → Bool × NgSession × Trace
check_session sys sessions maxsessions (NgSession.icmp s) tr =
    let (del, st) = check_icmp_session sys sessions maxsessions (of_ng s tr) in
    (del, NgSession.icmp (to_ng st), st.trace)
check_session sys sessions maxsessions (NgSession.udp s) tr =
    let (del, st) = check_udp_session sys sessions maxsessions (of_ng s tr) in
    (del, NgSession.udp (to_ng st), st.trace)
check_session sys sessions maxsessions (NgSession.tcp s) tr =
    let (del, st) = check_tcp_session sys sessions maxsessions (of_ng s tr) in
    (del, NgSession.tcp (to_ng st), st.trace)

-- s->time + timeout.
unfoldable pub deadline : (sessions maxsessions : ℕ) → NgSession → ℤ
unfolding get_icmp_timeout get_udp_timeout get_tcp_timeout
deadline sessions maxsessions (NgSession.icmp s) =
    pos s.session.time +ℤ get_icmp_timeout sessions maxsessions
deadline sessions maxsessions (NgSession.udp s) =
    pos s.session.time +ℤ get_udp_timeout s.session.dest sessions maxsessions
deadline sessions maxsessions (NgSession.tcp s) =
    pos s.session.time +ℤ get_tcp_timeout s.session.state sessions maxsessions

-- The time to wait is no longer than that to the next deadline of an active session.
abbrev pub shorten : (stimeout timeout : ℤ) → ℤ
shorten stimeout timeout = if is_pos stimeout && ltb_ℤ stimeout timeout then stimeout else timeout

unfoldable pub next_timeout : (sessions maxsessions now : ℕ) → NgSession → (timeout : ℤ) → ℤ
unfolding is_active deadline
next_timeout sessions maxsessions now s timeout =
    if is_active s
    then shorten (deadline sessions maxsessions s -ℤ pos now +ℤ pos 1) timeout
    else timeout

pub record Checked : Type 0 where
  pub timeout : ℤ
  pub list : List NgSession
  pub trace : Trace

-- The loop over the list, in which sessions are unlinked and freed.
unfoldable pub check_sessions :
    System → (sessions maxsessions now : ℕ) → (timeout : ℤ) → List NgSession → Trace → Checked
unfolding check_session next_timeout
check_sessions sys sessions maxsessions now timeout [] tr = record {
  timeout = timeout;
  list = [];
  trace = tr;
}
check_sessions sys sessions maxsessions now timeout (s ∷ rest) tr =
    let (del, s1, tr1) = check_session sys sessions maxsessions s tr in
    let shorter = if del then timeout else next_timeout sessions maxsessions now s1 timeout in
    let later = check_sessions sys sessions maxsessions now shorter rest tr1 in
    record later { list = if del then later.list else s1 ∷ later.list }
