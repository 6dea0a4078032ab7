-- ===== src/Ip/Handle/Limit.antt =====
-- The limit on the number of sessions (app/src/main/cpp/ip.c).
use mobile_injection.Base.{
  ℕ, ◌≡◌, refl, ap, arith, Bool, true, false, Option, none, some, List, [], ◌∷◌, ◌++◌, ℤ, length,
  length-append, drop,
}
use mobile_injection.Base.Run.{Run, read_bytes, EachOk, EachOk->>=, EachOk-bind, EachOk-if}
use mobile_injection.Types.{
  TcpSession, UdpSession, UdpState, udp_state_eq, Ng, NgSession, Arguments,
}
use mobile_injection.System.{System, Trace}
use mobile_injection.Held.{Held, Found, is_found, find_session}
use mobile_injection.Held.Search.{IsFirst, find_session-IsFirst}
use mobile_injection.Net.Decode.{TcpHeader, UdpHeader, Addresses, tcp_header, udp_header}
use mobile_injection.Tls.{parse_tls_header}
use mobile_injection.Tcp.Handle.{update_session, handle_segment, handle_tcp, find_tcp}
use mobile_injection.Tcp.Open.{Allowed}
use mobile_injection.Tcp.Create.{copy_proxy}
use mobile_injection.Tcp.Handle.Lookup.{Answers, find_tcp_lem}
use mobile_injection.Udp.Handle.{pick_udp, put_udp, serve_udp, handle_udp}

-- The list has as many sessions as before.
abbrev pub Keeps : List NgSession → List NgSession × Trace → Type 0
Keeps list (after, tr) = length after ≡ length list

abbrev pub KeepsResult : List NgSession → Bool × List NgSession × Trace → Type 0
KeepsResult list (done, after, tr) = length after ≡ length list

replaced :
    (list front back : List NgSession) (s t : NgSession)
    → list ≡ front ++ (s ∷ back)
    → length (front ++ (t ∷ back)) ≡ length list
replaced list front back s t whole =
    omega (arith, ap length whole, length-append front (s ∷ back), length-append front (t ∷ back))

-- TCP: a segment without SYN.
handle_segment-Keeps :
    (fuel : ℕ) (sys : System) (redirect : Allowed) (ip : Addresses) (hdr : TcpHeader)
    (hostname options mem : List ℕ) (optlen datalen : ℕ) (uid : ℤ) (list : List NgSession)
    (tr : Trace) (r : Option (List NgSession × Ng TcpSession × List NgSession))
    → hdr.syn ≡ false
    → Answers ip hdr list r
    → EachOk
        (Keeps list)
        (handle_segment fuel sys redirect ip hdr hostname options mem optlen datalen uid list tr r)
unfolding handle_segment update_session
handle_segment-Keeps fuel sys redirect ip hdr hostname options mem optlen datalen uid list tr none
      syn found =
    EachOk-if (Keeps list) hdr.urg _ _ refl (rw syn refl)
handle_segment-Keeps fuel sys redirect ip hdr hostname options mem optlen datalen uid list tr
      (some (front, s, back)) syn (whole, found) =
    EachOk-if (Keeps list) hdr.urg _ _ refl (
      EachOk->>= (Keeps list) (read_bytes mem datalen) _
        (λ bytes. replaced list front back (NgSession.tcp s) _ whole))

pub handle_tcp-Keeps :
    (signed_char : Bool) (fuel : ℕ) (sys : System) (args : Arguments) (memory : List ℕ)
    (size payload : ℕ) (ip : Addresses) (uid : ℤ) (list : List NgSession) (tr : Trace)
    → EachOk (λ (hdr : TcpHeader). hdr.syn ≡ false) (tcp_header (drop payload memory))
    → EachOk (Keeps list) (handle_tcp signed_char fuel sys args memory size payload ip uid list tr)
unfolding handle_tcp
handle_tcp-Keeps signed_char fuel sys args memory size payload ip uid list tr h =
    EachOk-bind (λ (hdr : TcpHeader). hdr.syn ≡ false) (Keeps list)
      (tcp_header (drop payload memory)) _ h
      (λ hdr syn. EachOk->>= (Keeps list) (parse_tls_header signed_char _ _ []) _ (λ hostname.
        EachOk->>= (Keeps list) (copy_proxy args) _ (λ redirect.
          handle_segment-Keeps fuel sys redirect ip hdr hostname _ _ _ _ uid list tr
            (find_tcp ip hdr list) syn (find_tcp_lem ip hdr list))))

-- UDP: a packet of a session.
put_udp-Keeps :
    (list front back : List NgSession) (s : NgSession) (r : Run (Bool × Held UdpSession))
    → list ≡ front ++ (s ∷ back)
    → EachOk (KeepsResult list) (put_udp front back r)
unfolding put_udp
put_udp-Keeps list front back s r whole =
    EachOk->>= (KeepsResult list) r _ (λ a. replaced list front back s _ whole)

serve_udp-Keeps :
    (fuel : ℕ) (sys : System) (ip : Addresses) (hdr : UdpHeader) (mem : List ℕ) (datalen : ℕ)
    (uid : ℤ) (list : List NgSession) (tr : Trace) (r : Found UdpSession)
    → is_found r ≡ true
    → IsFirst (pick_udp ip hdr) list r
    → EachOk (KeepsResult list) (serve_udp fuel sys ip hdr mem datalen uid list tr r)
unfolding serve_udp
serve_udp-Keeps fuel sys ip hdr mem datalen uid list tr none known found = absurd (cc)
serve_udp-Keeps fuel sys ip hdr mem datalen uid list tr (some (front, t, back)) known
      (s, whole, picked, first) =
    EachOk-if (KeepsResult list) (udp_state_eq t.session.state UdpState.udp_active) _ _
      (put_udp-Keeps list front back s _ whole) refl

pub handle_udp-Keeps :
    (fuel : ℕ) (sys : System) (args : Arguments) (memory : List ℕ) (size payload : ℕ)
    (ip : Addresses) (uid : ℤ) (list : List NgSession) (tr : Trace)
    → EachOk
        (λ hdr. is_found (find_session (pick_udp ip hdr) list) ≡ true)
        (udp_header (drop payload memory))
    → EachOk (KeepsResult list) (handle_udp fuel sys args memory size payload ip uid list tr)
unfolding handle_udp
handle_udp-Keeps fuel sys args memory size payload ip uid list tr h =
    EachOk-bind (λ hdr. is_found (find_session (pick_udp ip hdr) list) ≡ true) (KeepsResult list)
      (udp_header (drop payload memory)) _ h
      (λ hdr known.
        serve_udp-Keeps fuel sys ip hdr _ _ uid list tr (find_session (pick_udp ip hdr) list) known
          (find_session-IsFirst (pick_udp ip hdr) list))
