-- ===== src/Icmp/Timer.antt =====
-- `get_icmp_timeout` and `check_icmp_session` of app/src/main/cpp/icmp.c.
use mobile_injection.Base.{ℕ, Bool, true, false, ◌||◌, ◌∷◌, ℤ, pos, ltb_ℤ, ◌+ℤ◌, if◌then◌else◌}
use mobile_injection.Types.{IcmpSession}
use mobile_injection.System.{System, Event}
use mobile_injection.Held.{Held, close_socket}
use mobile_injection.Tcp.Timeout.{scale_timeout}

unfoldable pub get_icmp_timeout : (sessions maxsessions : ℕ) → ℤ
unfolding scale_timeout
get_icmp_timeout sessions maxsessions = scale_timeout 15 sessions maxsessions

-- s->icmp.time = time(NULL).
abbrev pub stamp_icmp : System → Held IcmpSession → Held IcmpSession
stamp_icmp sys st = record st {
  cur = record st.cur { time = sys.time st.trace };
  trace = Event.asked_time ∷ st.trace;
}

-- s->icmp.stop = 1.
abbrev pub stop_icmp : Held IcmpSession → Held IcmpSession
stop_icmp st = record st { cur = record st.cur { stop = true } }

-- The result says whether the session is to be deleted.
unfoldable pub check_icmp_session :
    System → (sessions maxsessions : ℕ) → Held IcmpSession → Bool × Held IcmpSession
check_icmp_session sys sessions maxsessions st =
    let now = sys.time st.trace in
    let st1 = record st { trace = Event.asked_time ∷ st.trace } in
    let timeout = get_icmp_timeout sessions maxsessions in
    if st.cur.stop || ltb_ℤ (pos st.cur.time +ℤ timeout) (pos now)
    then (true, close_socket st1)
    else (false, st1)
