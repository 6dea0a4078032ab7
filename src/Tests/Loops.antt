-- ===== src/Tests/Loops.antt =====
-- The list of sessions and the loop over events at concrete values.
use mobile_injection.Base.{
  ℕ, ◌≡◌, refl, arith, ltb_ℤ, true, false, ◌⊎◌, List, [], ◌∷◌, is_neg, All, ltb, length,
  if◌then◌else◌, pos, negsuc, some,
}
use mobile_injection.Base.Text.{codes}
use mobile_injection.System.{System, Trace, Event, ProcLine}
use mobile_injection.Util.Hex.{hex2bytes}
use mobile_injection.Ip.Uid.{swap_words, get_uid_sub}
use mobile_injection.Ip.Uid.Choice.{choose, connection_user, port_user, get_uid_sub_lem}
use mobile_injection.Session.Check.{deadline}
use mobile_injection.Session.Check.Expiry.{check_session-ends}
use mobile_injection.Udp.Timer.{check_udp_session}
use mobile_injection.Base.Run.{ok, EachOk}
use mobile_injection.Types.{NgSession}
use mobile_injection.Session.Count.{is_active, socket_of}
use mobile_injection.Session.Check.{check_session, check_sessions}
use mobile_injection.Session.Check.Settled.{Settled}
use mobile_injection.Session.Check.Wakeup.{IsCovered, check_sessions-wakes}
use mobile_injection.Session.Allowed.{check_allowed, clear}
use mobile_injection.Session.Allowed.Ends.{HasClosed, clear-closes, check_allowed-ends}
use mobile_injection.Session.Loop.{Loop, loop_round}
use mobile_injection.Session.Tidy.{IsTidySession}
use mobile_injection.Session.Tidy.Checks.{check_session-closes}
use mobile_injection.Session.Tidy.Rounds.{Reaches, handle_events-IsTidy}
use mobile_injection.Ip.Handle.{handle_ip}
use mobile_injection.Ip.Handle.Limit.{Keeps}
use mobile_injection.Ip.Handle.Full.{handle_ip-Keeps}
use mobile_injection.Tests.Data.{
  kernel, arguments, forwarding, settings, mixed, udp_ng, ip4_packet, server,
}

mixed-IsTidy : All IsTidySession mixed
mixed-IsTidy = (λ e. ground arith, (λ e. ground arith, (tt, tt)))

abbrev after : Loop
after = record {
  done = false;
  last_check = 0;
  list = (check_allowed kernel mixed []).0;
  trace = (check_allowed kernel mixed []).1;
}

-- The state after one round.
abbrev next : Loop
unfolding loop_round
next = elim (loop_round 5 settings kernel arguments 1000 after) [ ok l ↦ l | _ ↦ after ]

handle_events-IsTidy_example : All IsTidySession next.list
unfolding loop_round
handle_events-IsTidy_example =
    handle_events-IsTidy 5 settings kernel arguments 1000 mixed [] next mixed-IsTidy
      (Reaches.round Reaches.start refl refl)

check_session-closes_example :
    let r = check_session kernel 1 100 (NgSession.udp udp_ng) [] in
    IsTidySession r.1
    × (((r.0 ≡ false) ⊎ (is_neg (socket_of r.1) ≡ true))
        × Settled (socket_of (NgSession.udp udp_ng)) (socket_of r.1) r.2)
check_session-closes_example =
    check_session-closes kernel 1 100 (NgSession.udp udp_ng) [] (λ e. ground arith)

clear-closes_example : ((clear mixed []).0 ≡ []) × All (HasClosed (clear mixed []).1) mixed
clear-closes_example = clear-closes mixed []

check_allowed-ends_example : All (λ s. is_active s ≡ false) (check_allowed kernel mixed []).0
check_allowed-ends_example = check_allowed-ends kernel mixed []

handle_ip-Keeps_example :
    EachOk (Keeps mixed) (handle_ip settings kernel forwarding (0x45 ∷ ip4_packet) 32 3 3 mixed [])
handle_ip-Keeps_example =
    handle_ip-Keeps settings kernel forwarding (0x45 ∷ ip4_packet) 32 3 3 mixed [] refl
      (omega arith)

-- A clock that says 1100 at first, and 2000 after three questions.
abbrev clock : System
clock = record kernel { time = λ tr. if ltb (length tr) 3 then 1100 else 2000 }

abbrev later : Trace
later = Event.asked_time ∷ Event.asked_time ∷ Event.asked_time ∷ []

check_session-ends_example :
    let r = check_session clock 1 100 (NgSession.udp udp_ng) [] in
    (r.0 ≡ true) ⊎ ((is_active r.1 ≡ false) × ((check_session clock 2 100 r.1 later).0 ≡ true))
unfolding is_active deadline check_session check_udp_session
check_session-ends_example =
    check_session-ends clock 1 100 (NgSession.udp udp_ng) [] 2 100 later refl refl (omega arith)

-- Lines of the same local port: another connection, the one looked for, and another after it.
abbrev line : (hex : List ℕ) (uid : ℕ) → ProcLine
line hex uid = record { fields = 4; sport = 5353; hex = hex; dport = 53; uid = pos uid }

abbrev lines : List ProcLine
lines = line (codes "22D8B85D") 10 ∷ line (codes "22D8B85D") 11 ∷ line (codes "0100007F") 12 ∷ []

abbrev tables : System
tables = record kernel { table = λ tr protocol version. some lines }

get_uid_sub_example :
    (get_uid_sub tables 4 17 5353 server 53 []).0
    ≡ choose (connection_user 4 5353 server 53 lines) (port_user 4 5353 lines (negsuc 0))
get_uid_sub_example = get_uid_sub_lem tables 4 17 5353 server 53 [] lines refl refl

connection_user-lines : connection_user 4 5353 server 53 lines ≡ some (pos 10)
unfolding hex2bytes swap_words
connection_user-lines = refl

check_sessions-wakes_example :
    let r = check_sessions clock 1 100 1100 (pos 3600) mixed [] in
    (ltb_ℤ (pos 3600) r.timeout ≡ false) × All (IsCovered 1 100 1100 r.timeout) r.list
check_sessions-wakes_example = check_sessions-wakes clock 1 100 1100 (pos 3600) mixed []
