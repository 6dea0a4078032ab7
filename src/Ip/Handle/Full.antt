-- ===== src/Ip/Handle/Full.antt =====
-- What `handle_ip` (app/src/main/cpp/ip.c) does when there are as many sessions as there may be.
use mobile_injection.Base.{
  ℕ, ◌≡◌, ◌≤◌, refl, sym, ◌∙◌, arith, Bool, true, false, not, ◌&&◌, ◌==◌, leb, ltb, negsuc, Option,
  none, some, List, ℤ, drop, if◌then◌else◌,
}
use mobile_injection.Base.Run.{
  Run, ok, fault, out_of_fuel, ◌>>=◌, EachOk, EachOk->>=, EachOk-bind, EachOk-value, EachOk-cases,
}
use mobile_injection.Types.{NgSession, Arguments}
use mobile_injection.System.{System, Trace}
use mobile_injection.Held.{is_found, find_session}
use mobile_injection.Net.Decode.{TcpHeader, UdpHeader, tcp_header, udp_header, read16, size_sub}
use mobile_injection.Udp.Handle.{pick_udp, has_udp_session}
use mobile_injection.Ip.Parse.{Packet, Ports, parse_ip, parse_ports, is_icmp, icmp_size}
use mobile_injection.Ip.Uid.{get_uid}
use mobile_injection.Net.Header.{udp_size, tcp_size}
use mathlib.Core.Path.{subst}
use mobile_injection.Ip.Handle.{
  Settings, may_open, dispatch, handle_packet, handle_payload, handle_parsed, handle_ip,
}
use mobile_injection.Ip.Handle.Limit.{Keeps, KeepsResult, handle_tcp-Keeps, handle_udp-Keeps}

-- The SYN flag of the ports is that of the TCP header.
abbrev Agrees : Packet → List ℕ → Option Ports → Type 0
Agrees p memory none = Unit
Agrees p memory (some ports) =
    is_icmp p.protocol ≡ false
    → (p.protocol == 17) ≡ false
    → (p.protocol == 6) ≡ true
    → EachOk (λ (hdr : TcpHeader). hdr.syn ≡ ports.syn) (tcp_header (drop p.payload memory))

parse_ports-Agrees :
    (p : Packet) (memory : List ℕ) (size : ℕ) → EachOk (Agrees p memory) (parse_ports p memory size)
unfolding parse_ports
parse_ports-Agrees p memory size =
    let payload = drop p.payload memory in
    EachOk-cases (Agrees p memory) (is_icmp p.protocol) _ _
      (λ icmp.
        EachOk-cases (Agrees p memory) (ltb (size_sub size p.payload) icmp_size) _ _ (λ short. tt)
          (λ long.
            EachOk->>= (Agrees p memory) (read16 payload 4) _
              (λ id no_icmp no_udp tcp. absurd (cc))))
      (λ no_icmp.
        EachOk-cases (Agrees p memory) (p.protocol == 17) _ _
          (λ udp.
            EachOk-cases (Agrees p memory) (ltb (size_sub size p.payload) udp_size) _ _
              (λ short. tt)
              (λ long.
                EachOk->>= (Agrees p memory) (udp_header payload) _
                  (λ hdr again no_udp tcp. absurd (cc))))
          (λ no_udp.
            EachOk-cases (Agrees p memory) (p.protocol == 6) _ _
              (λ tcp.
                EachOk-cases (Agrees p memory) (ltb (size_sub size p.payload) tcp_size) _ _
                  (λ short. tt)
                  (λ long.
                    EachOk-value (Agrees p memory) (tcp_header payload) _
                      (λ hdr e no_icmp' no_udp' tcp'. rw e refl)))
              (λ no_tcp no_icmp' no_udp' tcp. absurd (cc))))

-- A UDP packet that may not open a session belongs to one, if DNS is forwarded.
known-found :
    (args : Arguments) (found : UdpHeader → Bool) (r : Run UdpHeader)
    → args.fwd53 ≡ true
    → (r
        >>= (λ hdr. ok (if hdr.dest == 53 && not args.fwd53 then true else found hdr))
        >>= (λ known. ok (not known)))
      ≡ ok false
    → EachOk (λ hdr. found hdr ≡ true) r
known-found args found (ok hdr) fwd e = ground arith
known-found args found fault fwd e = tt
known-found args found out_of_fuel fwd e = tt

dispatch-Keeps :
    (cfg : Settings) (sys : System) (args : Arguments) (p : Packet) (ports : Ports)
    (memory : List ℕ) (size : ℕ) (uid : ℤ) (list : List NgSession) (tr : Trace)
    → args.fwd53 ≡ true
    → Agrees p memory (some ports)
    → may_open args p ports memory list ≡ ok false
    → EachOk (Keeps list) (dispatch cfg sys args p memory size uid list tr)
unfolding dispatch may_open has_udp_session
dispatch-Keeps cfg sys args p ports memory size uid list tr fwd agrees closed =
    EachOk-cases (Keeps list) (is_icmp p.protocol) _ _ (λ icmp. absurd (cc))
      (λ no_icmp.
        EachOk-cases (Keeps list) (p.protocol == 17) _ _
          (λ udp.
            EachOk-bind (KeepsResult list) (Keeps list) _ _
              (handle_udp-Keeps cfg.fuel sys args memory size p.payload p.addresses uid list tr (
                known-found args (λ hdr. is_found (find_session (pick_udp p.addresses hdr) list))
                  (udp_header (drop p.payload memory)) fwd (sym (rw (no_icmp, udp) refl) ∙ closed)))
              (λ r k. k))
          (λ no_udp.
            EachOk-cases (Keeps list) (p.protocol == 6) _ _
              (λ tcp.
                handle_tcp-Keeps cfg.signed_char cfg.fuel sys args memory size p.payload p.addresses
                  uid list tr (segment no_icmp no_udp tcp))
              (λ other. refl)))
  where
    syn_false :
        is_icmp p.protocol ≡ false
        → (p.protocol == 17) ≡ false
        → (p.protocol == 6) ≡ true
        → ports.syn ≡ false
    syn_false no_icmp no_udp tcp = ground arith

    segment :
        is_icmp p.protocol ≡ false
        → (p.protocol == 17) ≡ false
        → (p.protocol == 6) ≡ true
        → EachOk (λ (hdr : TcpHeader). hdr.syn ≡ false) (tcp_header (drop p.payload memory))
    segment no_icmp no_udp tcp =
        subst (λ b. EachOk (λ (hdr : TcpHeader). hdr.syn ≡ b) (tcp_header (drop p.payload memory)))
          (syn_false no_icmp no_udp tcp) (agrees no_icmp no_udp tcp)

handle_packet-Keeps :
    (cfg : Settings) (sys : System) (args : Arguments) (sessions maxsessions : ℕ) (p : Packet)
    (ports : Ports) (memory : List ℕ) (size : ℕ) (list : List NgSession) (tr : Trace)
    → args.fwd53 ≡ true
    → maxsessions ≤ sessions
    → Agrees p memory (some ports)
    → EachOk
        (Keeps list)
        (handle_packet cfg sys args sessions maxsessions p ports memory size list tr)
unfolding handle_packet
handle_packet-Keeps cfg sys args sessions maxsessions p ports memory size list tr fwd full agrees =
    EachOk-value (Keeps list) (may_open args p ports memory list) _ decided
  where
    reached : leb maxsessions sessions ≡ true
    reached = ground arith

    uid_of : (opens : Bool) → ℤ × Trace
    uid_of opens =
        if opens
        then get_uid sys p.addresses.version p.protocol ports.sport p.addresses.daddr ports.dport tr
        else (negsuc 0, tr)

    decided :
        (opens : Bool)
        → may_open args p ports memory list ≡ ok opens
        → EachOk (Keeps list) (
            if leb maxsessions sessions && opens
            then ok (list, tr)
            else dispatch cfg sys args p memory size (uid_of opens).0 list (uid_of opens).1)
    decided true e = rw reached refl
    decided false e =
        rw reached (dispatch-Keeps cfg sys args p ports memory size (negsuc 0) list tr fwd agrees e)

-- When there are as many sessions as there may be, or more, and DNS is forwarded: whatever packet comes, the
-- list that `handle_ip` returns has as many sessions as before. None is opened, and none is lost.
pub handle_ip-Keeps :
    (cfg : Settings) (sys : System) (args : Arguments) (memory : List ℕ)
    (size sessions maxsessions : ℕ) (list : List NgSession) (tr : Trace)
    → args.fwd53 ≡ true
    → maxsessions ≤ sessions
    → EachOk (Keeps list) (handle_ip cfg sys args memory size sessions maxsessions list tr)
unfolding handle_ip handle_parsed handle_payload
handle_ip-Keeps cfg sys args memory size sessions maxsessions list tr fwd full =
    EachOk->>= (Keeps list) (parse_ip cfg.check cfg.fuel memory size) _ parsed
  where
    payload :
        (p : Packet) (found : Option Ports)
        → Agrees p memory found
        → EachOk
            (Keeps list)
            (handle_payload cfg sys args sessions maxsessions p memory size list tr found)
    payload p none agrees = refl
    payload p (some ports) agrees =
        handle_packet-Keeps cfg sys args sessions maxsessions p ports memory size list tr fwd full
          agrees

    parsed :
        (found : Option Packet)
        → EachOk
            (Keeps list)
            (handle_parsed cfg sys args memory size sessions maxsessions list tr found)
    parsed none = refl
    parsed (some p) =
        EachOk-bind (Agrees p memory) (Keeps list) (parse_ports p memory size) _
          (parse_ports-Agrees p memory size) (payload p)
