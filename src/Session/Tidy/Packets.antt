-- ===== src/Session/Tidy/Packets.antt =====
-- The packets from the tun device (app/src/main/cpp/ip.c, udp.c and icmp.c) and the sockets of the
-- sessions that are over.
use mobile_injection.Base.{
  ℕ, ◌≡◌, refl, arith, Bool, true, ◌==◌, leb, ◌&&◌, is_neg, Option, none, some, List, [], ℤ, drop,
  All, All-append, All-split, Bool-cases, inl, inr,
}
use mathlib.Core.Path.{subst}
use mobile_injection.Base.Run.{Run, read, EachOk, EachOk->>=, EachOk-bind, EachOk-if}
use mobile_injection.Types.{
  UdpSession, UdpState, udp_state_eq, IcmpSession, Ng, NgSession, Arguments,
}
use mobile_injection.System.{System, Trace}
use mobile_injection.Held.{Held, of_ng, Found}
use mobile_injection.Held.Search.{IsFirst, find_session-IsFirst}
use mobile_injection.Net.Decode.{UdpHeader, Addresses, udp_header, read16}
use mobile_injection.Udp.Open.{open_udp_socket}
use mobile_injection.Udp.Handle.{pick_udp, new_udp, open_udp, put_udp, serve_udp, handle_udp}
use mobile_injection.Udp.Tidy.{IsTidyUdp, is_over, forward_udp-IsTidy}
use mobile_injection.Icmp.Handle.{pick_icmp, new_icmp, put_icmp, serve_icmp, handle_icmp}
use mobile_injection.Tcp.Tidy.Handle.{handle_tcp-IsTidy}
use mobile_injection.Ip.Parse.{Packet, Ports, parse_ip, parse_ports, is_icmp}
use mobile_injection.Ip.Handle.{
  Settings, may_open, dispatch, handle_packet, handle_payload, handle_parsed, handle_ip,
}
use mobile_injection.Session.Tidy.{IsTidySession, AllTidy}

-- A result of a handler, with its answer in front.
abbrev pub TidyResult : Bool × List NgSession × Trace → Type 0
TidyResult (done, list, tr) = All IsTidySession list

pick_udp-udp :
    (ip : Addresses) (hdr : UdpHeader) (s : NgSession) (t : Ng UdpSession)
    → pick_udp ip hdr s ≡ some t
    → s ≡ NgSession.udp t
unfolding pick_udp
pick_udp-udp ip hdr (NgSession.udp s) t e = ground arith
pick_udp-udp ip hdr (NgSession.tcp s) t e = absurd (cc)
pick_udp-udp ip hdr (NgSession.icmp s) t e = absurd (cc)

put_udp-IsTidy :
    (front back : List NgSession) (r : Run (Bool × Held UdpSession))
    → All IsTidySession front
    → All IsTidySession back
    → EachOk (λ (a : Bool × Held UdpSession). IsTidyUdp a.1) r
    → EachOk TidyResult (put_udp front back r)
unfolding put_udp
put_udp-IsTidy front back r first last h =
    EachOk-bind (λ (a : Bool × Held UdpSession). IsTidyUdp a.1) TidyResult r _ h
      (λ a k. All-append IsTidySession front _ first (k, last))

open_udp-state : (sys : System) (st : Held UdpSession) → (open_udp sys st).cur.state ≡ st.cur.state
unfolding open_udp
open_udp-state sys st = elim (Bool-cases (is_neg (open_udp_socket sys none st.cur st.trace).0)) [
  | inl e ↦ rw e refl
  | inr e ↦ rw e refl
]

serve_udp-IsTidy :
    (fuel : ℕ) (sys : System) (ip : Addresses) (hdr : UdpHeader) (mem : List ℕ) (datalen : ℕ)
    (uid : ℤ) (list : List NgSession) (tr : Trace) (r : Found UdpSession)
    → All IsTidySession list
    → IsFirst (pick_udp ip hdr) list r
    → EachOk TidyResult (serve_udp fuel sys ip hdr mem datalen uid list tr r)
unfolding serve_udp new_udp
serve_udp-IsTidy fuel sys ip hdr mem datalen uid list tr none all found =
    let st = open_udp sys (new_udp sys ip hdr uid tr) in
    let fresh : IsTidyUdp st = λ e. fresh_state e in
    EachOk-if TidyResult (is_neg st.socket) _ _ all
      (put_udp-IsTidy [] list _ tt all (forward_udp-IsTidy fuel sys hdr mem datalen st fresh))
  where
    fresh_state :
        is_over (open_udp sys (new_udp sys ip hdr uid tr)).cur.state ≡ true
        → is_neg (open_udp sys (new_udp sys ip hdr uid tr)).socket ≡ true
    fresh_state e = absurd (cc (open_udp-state sys (new_udp sys ip hdr uid tr)))
serve_udp-IsTidy fuel sys ip hdr mem datalen uid list tr (some (front, t, back)) all
      (s, whole, picked, first) =
    let (fs, own, bs) =
      All-split IsTidySession front s back (subst (All IsTidySession) whole all) in
    let tidy : IsTidySession (NgSession.udp t) =
      subst IsTidySession (pick_udp-udp ip hdr s t picked) own in
    EachOk-if TidyResult (udp_state_eq t.session.state UdpState.udp_active) _ _
      (put_udp-IsTidy front back _ fs bs
        (forward_udp-IsTidy fuel sys hdr mem datalen (of_ng t tr) tidy))
      all

handle_udp-IsTidy :
    (fuel : ℕ) (sys : System) (args : Arguments) (memory : List ℕ) (size payload : ℕ)
    (ip : Addresses) (uid : ℤ) (list : List NgSession) (tr : Trace)
    → All IsTidySession list
    → EachOk TidyResult (handle_udp fuel sys args memory size payload ip uid list tr)
unfolding handle_udp
handle_udp-IsTidy fuel sys args memory size payload ip uid list tr all =
    EachOk->>= TidyResult (udp_header (drop payload memory)) _ (λ hdr.
      serve_udp-IsTidy fuel sys ip hdr _ _ uid list tr _ all
        (find_session-IsFirst (pick_udp ip hdr) list))

put_icmp-IsTidy :
    (front back : List NgSession) (r : Run (Bool × Held IcmpSession))
    → All IsTidySession front
    → All IsTidySession back
    → EachOk TidyResult (put_icmp front back r)
unfolding put_icmp
put_icmp-IsTidy front back r first last =
    EachOk->>= TidyResult r _ (λ a. All-append IsTidySession front _ first (tt, last))

serve_icmp-IsTidy :
    (sys : System) (ip : Addresses) (packet : List ℕ) (offset icmplen id : ℕ) (uid : ℤ)
    (list : List NgSession) (tr : Trace) (r : Found IcmpSession)
    → All IsTidySession list
    → IsFirst (pick_icmp ip) list r
    → EachOk TidyResult (serve_icmp sys ip packet offset icmplen id uid list tr r)
unfolding serve_icmp
serve_icmp-IsTidy sys ip packet offset icmplen id uid list tr none all found =
    EachOk-if TidyResult (is_neg (new_icmp sys ip id uid tr).socket) _ _ all
      (put_icmp-IsTidy [] list _ tt all)
serve_icmp-IsTidy sys ip packet offset icmplen id uid list tr (some (front, t, back)) all
      (s, whole, picked, first) =
    let (fs, own, bs) =
      All-split IsTidySession front s back (subst (All IsTidySession) whole all) in
    put_icmp-IsTidy front back _ fs bs

handle_icmp-IsTidy :
    (sys : System) (memory : List ℕ) (size payload : ℕ) (ip : Addresses) (uid : ℤ)
    (list : List NgSession) (tr : Trace)
    → All IsTidySession list
    → EachOk TidyResult (handle_icmp sys memory size payload ip uid list tr)
unfolding handle_icmp
handle_icmp-IsTidy sys memory size payload ip uid list tr all =
    EachOk->>= TidyResult (read (drop payload memory) 0) _ (λ type.
      EachOk-if TidyResult (type == 8) _ _
        (EachOk->>= TidyResult (read16 (drop payload memory) 4) _ (λ id.
          serve_icmp-IsTidy sys ip memory payload _ id uid list tr _ all
            (find_session-IsFirst (pick_icmp ip) list)))
        all)

dispatch-IsTidy :
    (cfg : Settings) (sys : System) (args : Arguments) (p : Packet) (memory : List ℕ) (size : ℕ)
    (uid : ℤ) (list : List NgSession) (tr : Trace)
    → All IsTidySession list
    → EachOk AllTidy (dispatch cfg sys args p memory size uid list tr)
unfolding dispatch
dispatch-IsTidy cfg sys args p memory size uid list tr all =
    EachOk-if AllTidy (is_icmp p.protocol) _ _
      (EachOk-bind TidyResult AllTidy _ _
        (handle_icmp-IsTidy sys memory size p.payload p.addresses uid list tr all) (λ r k. k))
      (EachOk-if AllTidy (p.protocol == 17) _ _
        (EachOk-bind TidyResult AllTidy _ _
          (handle_udp-IsTidy cfg.fuel sys args memory size p.payload p.addresses uid list tr all)
          (λ r k. k))
        (EachOk-if AllTidy (p.protocol == 6) _ _
          (handle_tcp-IsTidy cfg.signed_char cfg.fuel sys args memory size p.payload p.addresses uid
            list tr all)
          all))

handle_packet-IsTidy :
    (cfg : Settings) (sys : System) (args : Arguments) (sessions maxsessions : ℕ) (p : Packet)
    (ports : Ports) (memory : List ℕ) (size : ℕ) (list : List NgSession) (tr : Trace)
    → All IsTidySession list
    → EachOk AllTidy (handle_packet cfg sys args sessions maxsessions p ports memory size list tr)
unfolding handle_packet
handle_packet-IsTidy cfg sys args sessions maxsessions p ports memory size list tr all =
    EachOk->>= AllTidy (may_open args p ports memory list) _ (λ opens.
      EachOk-if AllTidy (leb maxsessions sessions && opens) _ _ all
        (dispatch-IsTidy cfg sys args p memory size _ list _ all))

-- If no session of the list that is over holds a socket, this is so in every list that `handle_ip` returns,
-- whatever the packet is and whichever handler it goes to.
pub handle_ip-IsTidy :
    (cfg : Settings) (sys : System) (args : Arguments) (memory : List ℕ)
    (size sessions maxsessions : ℕ) (list : List NgSession) (tr : Trace)
    → All IsTidySession list
    → EachOk AllTidy (handle_ip cfg sys args memory size sessions maxsessions list tr)
unfolding handle_ip handle_payload handle_parsed
handle_ip-IsTidy cfg sys args memory size sessions maxsessions list tr all =
    EachOk->>= AllTidy (parse_ip cfg.check cfg.fuel memory size) _ parsed
  where
    payload :
        (p : Packet) (found : Option Ports)
        → EachOk AllTidy
            (handle_payload cfg sys args sessions maxsessions p memory size list tr found)
    payload p none = all
    payload p (some ports) =
        handle_packet-IsTidy cfg sys args sessions maxsessions p ports memory size list tr all

    parsed :
        (found : Option Packet)
        → EachOk AllTidy (handle_parsed cfg sys args memory size sessions maxsessions list tr found)
    parsed none = all
    parsed (some p) = EachOk->>= AllTidy (parse_ports p memory size) _ (payload p)
