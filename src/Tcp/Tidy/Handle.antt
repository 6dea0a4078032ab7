-- ===== src/Tcp/Tidy/Handle.antt =====
-- `handle_tcp` (app/src/main/cpp/tcp.c) and the sockets of the sessions that are shut.
use mobile_injection.Base.{
  ℕ, ◌≡◌, refl, Bool, true, false, is_neg, ℤ, List, [], ◌∷◌, drop, All, All-append, inl, inr,
  Bool-cases, Option, none, some,
}
use mobile_injection.Base.Run.{EachOk, EachOk->>=, EachOk-if, read_bytes}
use mobile_injection.Types.{TcpSession, NgSession, Ng, Arguments}
use mobile_injection.System.{System, Trace}
use mobile_injection.Net.Decode.{TcpHeader, Addresses, tcp_header}
use mobile_injection.Held.{behind, of_ng}
use mobile_injection.Tcp.State.{St}
use mobile_injection.Tcp.Options.{options_loop}
use mobile_injection.Tls.{parse_tls_header}
use mobile_injection.Tcp.Open.{Allowed, open_tcp_socket}
use mobile_injection.Tcp.Create.{new_session, open_session, copy_proxy, create_session}
use mobile_injection.Tcp.Handle.{find_tcp, tcp_matches, handle_tcp, update_session, handle_segment}
use mobile_injection.Tcp.Tidy.Segment.{found_session-IsTidy}
use mobile_injection.Session.Tidy.{IsTidySession, AllTidy}
use mobile_injection.Tcp.Tidy.{IsTidy, is_shut, get_receive_window-IsTidy}

abbrev Found : Option (List NgSession × Ng TcpSession × List NgSession) → Type 0
Found none = Unit
Found (some (front, s, back)) =
    All IsTidySession front
    × ((is_shut s.session.state ≡ true → is_neg s.socket ≡ true) × All IsTidySession back)

behind-IsTidy :
    (s : NgSession) (r : Option (List NgSession × Ng TcpSession × List NgSession))
    → IsTidySession s
    → Found r
    → Found (behind s r)
unfolding behind
behind-IsTidy s none h k = tt
behind-IsTidy s (some (front, t, back)) h k = ((h, k.0), k.1)

find_tcp-IsTidy :
    (ip : Addresses) (hdr : TcpHeader) (sessions : List NgSession)
    → All IsTidySession sessions
    → Found (find_tcp ip hdr sessions)
unfolding find_tcp
find_tcp-IsTidy ip hdr [] all = tt
find_tcp-IsTidy ip hdr (NgSession.tcp s ∷ rest) (h, all) =
    elim (Bool-cases (tcp_matches ip hdr s.session)) [
      | inl found ↦ rw found (tt, (h, all))
      | inr other ↦ rw other (
          behind-IsTidy (NgSession.tcp s) (find_tcp ip hdr rest) h
            (find_tcp-IsTidy ip hdr rest all))
    ]
find_tcp-IsTidy ip hdr (NgSession.udp s ∷ rest) (h, all) =
    behind-IsTidy (NgSession.udp s) (find_tcp ip hdr rest) h (find_tcp-IsTidy ip hdr rest all)
find_tcp-IsTidy ip hdr (NgSession.icmp s ∷ rest) (h, all) =
    behind-IsTidy (NgSession.icmp s) (find_tcp ip hdr rest) h (find_tcp-IsTidy ip hdr rest all)

open_session-IsTidy :
    (sys : System) (redirect : Allowed) (sessions : List NgSession) (st : St)
    → is_shut st.cur.state ≡ false
    → All IsTidySession sessions
    → All IsTidySession (open_session sys redirect sessions st).0
unfolding open_session
open_session-IsTidy sys redirect sessions st h all =
    let r = open_tcp_socket sys redirect st.cur st.trace in
    let opened : St = record st { socket = r.0; trace = r.1 } in
    let tidy : IsTidy opened = λ e. cc in
    let tidy1 = get_receive_window-IsTidy sys opened tidy in
    elim (Bool-cases (is_neg r.0)) [ inl bad ↦ rw bad all | inr good ↦ rw good (tidy1, all) ]

create_session-IsTidy :
    (fuel : ℕ) (sys : System) (redirect : Allowed) (ip : Addresses) (hdr : TcpHeader)
    (options mem : List ℕ) (optlen datalen : ℕ) (uid : ℤ) (sessions : List NgSession) (tr : Trace)
    → All IsTidySession sessions
    → EachOk AllTidy
        (create_session fuel sys redirect ip hdr options mem optlen datalen uid sessions tr)
unfolding create_session new_session
create_session-IsTidy fuel sys redirect ip hdr options mem optlen datalen uid sessions tr all =
    EachOk->>= AllTidy (options_loop fuel options optlen _) _ (λ o.
      EachOk->>= AllTidy (read_bytes mem datalen) _ (λ bytes.
        open_session-IsTidy sys _ sessions (new_session sys ip hdr o bytes uid tr) refl all))

update_session-IsTidy :
    (sys : System) (hdr : TcpHeader) (hostname mem : List ℕ) (datalen : ℕ) (front : List NgSession)
    (s : Ng TcpSession) (back : List NgSession) (tr : Trace)
    → Found (some (front, s, back))
    → EachOk AllTidy (update_session sys hdr hostname mem datalen front s back tr)
unfolding update_session
update_session-IsTidy sys hdr hostname mem datalen front s back tr (first, (own, last)) =
    EachOk->>= AllTidy (read_bytes mem datalen) _ (λ bytes.
      All-append IsTidySession front _ first
        (found_session-IsTidy sys hdr hostname bytes (of_ng s tr) own, last))

handle_segment-IsTidy :
    (fuel : ℕ) (sys : System) (redirect : Allowed) (ip : Addresses) (hdr : TcpHeader)
    (hostname options mem : List ℕ) (optlen datalen : ℕ) (uid : ℤ) (sessions : List NgSession)
    (tr : Trace) (r : Option (List NgSession × Ng TcpSession × List NgSession))
    → All IsTidySession sessions
    → Found r
    → EachOk AllTidy (
        handle_segment fuel sys redirect ip hdr hostname options mem optlen datalen uid sessions tr
          r)
unfolding handle_segment
handle_segment-IsTidy fuel sys redirect ip hdr hostname options mem optlen datalen uid sessions tr
      none all found =
    EachOk-if AllTidy hdr.urg _ _ all (
      EachOk-if AllTidy hdr.syn _ _
        (create_session-IsTidy fuel sys redirect ip hdr options mem optlen datalen uid sessions tr
          all)
        all)
handle_segment-IsTidy fuel sys redirect ip hdr hostname options mem optlen datalen uid sessions tr
      (some (front, s, back)) all found =
    EachOk-if AllTidy hdr.urg _ _ all
      (update_session-IsTidy sys hdr hostname mem datalen front s back tr found)

-- If no TCP session of the list in TCP_FIN_WAIT1, TCP_LAST_ACK or TCP_CLOSE holds a socket, this is so in
-- every list that `handle_tcp` returns, the new session of a SYN included.
pub handle_tcp-IsTidy :
    (signed_char : Bool) (fuel : ℕ) (sys : System) (args : Arguments) (memory : List ℕ)
    (size payload : ℕ) (ip : Addresses) (uid : ℤ) (sessions : List NgSession) (tr : Trace)
    → All IsTidySession sessions
    → EachOk AllTidy (handle_tcp signed_char fuel sys args memory size payload ip uid sessions tr)
unfolding handle_tcp
handle_tcp-IsTidy signed_char fuel sys args memory size payload ip uid sessions tr all =
    EachOk->>= AllTidy (tcp_header (drop payload memory)) _ (λ hdr.
      EachOk->>= AllTidy (parse_tls_header signed_char _ _ []) _ (λ hostname.
        EachOk->>= AllTidy (copy_proxy args) _ (λ redirect.
          handle_segment-IsTidy fuel sys redirect ip hdr hostname _ _ _ _ uid sessions tr
            (find_tcp ip hdr sessions) all (find_tcp-IsTidy ip hdr sessions all))))
