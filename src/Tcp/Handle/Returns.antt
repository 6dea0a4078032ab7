-- ===== src/Tcp/Handle/Returns.antt =====
-- The packets for which `handle_tcp` (app/src/main/cpp/tcp.c) is to return.
use mobile_injection.Base.{
  ℕ, suc, ◌+◌, ◌-◌, ◌≡◌, ◌≤◌, ◌<◌, refl, arith, Bool, ◌⊎◌, Option, none, some, List, [], ◌∷◌, ◌++◌,
  ℤ, drop, take, length, length-drop, le→ltb, lt→ltb, u16,
}
use mobile_injection.Base.Run.{Ends, Ends-if, Ends->>=, read_bytes, ok}
use mobile_injection.Types.{Arguments, NgSession, Ng, TcpSession}
use mobile_injection.System.{System, Trace}
use mobile_injection.Net.Decode.{TcpHeader, Addresses, tcp_header}
use mobile_injection.Net.Header.{get_default_mss}
use mobile_injection.Tls.{parse_tls_header}
use mobile_injection.Tls.Bounds.{parse_tls_header-Returns}
use mobile_injection.Tcp.Options.{Options, options_loop}
use mobile_injection.Tcp.Options.Laws.{
  TcpOption, encode_options, AllOther, apply_options, options_loop-encode_options,
}
use mobile_injection.Tcp.Create.{copy_proxy, create_session}
use mobile_injection.Tcp.Open.{Allowed}
use mobile_injection.Tcp.Handle.{
  find_tcp, option_length, data_length, update_session, handle_segment, handle_tcp,
}

-- The packet lies in the memory, with two bytes behind its TCP header, and its options are well-formed.
pub record IsPacket (memory : List ℕ) (size payload : ℕ) (hdr : TcpHeader) (xs : List TcpOption)
    : Type 0 where
  pub header : tcp_header (drop payload memory) ≡ ok hdr
  pub inside : size ≤ length memory
  pub small : size < 65536
  pub begins : payload + (20 + option_length hdr.doff) ≤ size
  pub others : AllOther xs
  pub b : ℕ
  pub c : ℕ
  pub tail : List ℕ
  pub options : drop (payload + 20) memory ≡ encode_options xs ++ (b ∷ c ∷ tail)
  pub pad : ℕ
  pub padded : (pad ≡ 0) ⊎ (b ≡ 0)
  pub option_bytes : option_length hdr.doff ≡ length (encode_options xs) + pad

data_length-exact :
    (size offset : ℕ) → offset ≤ size → size < 65536 → data_length size offset ≡ size - offset
data_length-exact size offset h k = omega arith

read_bytes-ok : (mem : List ℕ) (n : ℕ) → n ≤ length mem → read_bytes mem n ≡ ok (take n mem)
unfolding read_bytes
read_bytes-ok mem n h = rw (le→ltb (length mem) n h)

handle_segment-Ends :
    (fuel : ℕ) (sys : System) (redirect : Allowed) (ip : Addresses) (hdr : TcpHeader)
    (hostname options mem : List ℕ) (optlen datalen : ℕ) (uid : ℤ) (sessions : List NgSession)
    (tr : Trace) (r : Option (List NgSession × Ng TcpSession × List NgSession)) (o : Options)
    → datalen ≤ length mem
    → options_loop fuel options optlen (record { mss = get_default_mss ip.version; ws = 0 }) ≡ ok o
    → Ends (
        handle_segment fuel sys redirect ip hdr hostname options mem optlen datalen uid sessions tr
          r)
unfolding handle_segment create_session update_session
handle_segment-Ends fuel sys redirect ip hdr hostname options mem optlen datalen uid sessions tr
      none o h k =
    Ends-if hdr.urg _ _ (_, refl)
      (Ends-if hdr.syn _ _
        (Ends->>= (options_loop fuel options optlen _) _ o k (
          Ends->>= (read_bytes mem datalen) _ (take datalen mem) (read_bytes-ok mem datalen h)
            (_, refl)))
        (_, refl))
handle_segment-Ends fuel sys redirect ip hdr hostname options mem optlen datalen uid sessions tr
      (some (front, s, back)) o h k =
    Ends-if hdr.urg _ _ (_, refl)
      (Ends->>= (read_bytes mem datalen) _ (take datalen mem) (read_bytes-ok mem datalen h)
        (_, refl))

-- If the proxy's address has fewer than 47 characters, a packet that lies in the memory and has well-formed
-- options is handled: with one round for each option and one more, `handle_tcp` returns a list of
-- sessions, whatever the sessions, the data and the answers of the system are.
pub handle_tcp-ends :
    (signed_char : Bool) (sys : System) (args : Arguments) (memory : List ℕ) (size payload : ℕ)
    (ip : Addresses) (uid : ℤ) (sessions : List NgSession) (tr : Trace) (hdr : TcpHeader)
    (xs : List TcpOption)
    → length args.proxy_ip < 47
    → IsPacket memory size payload hdr xs
    → (r : List NgSession × Trace) × (handle_tcp signed_char
          (suc (length xs))
          sys
          args
          memory
          size
          payload
          ip
          uid
          sessions
          tr
        ≡ ok r)
unfolding handle_tcp copy_proxy
handle_tcp-ends signed_char sys args memory size payload ip uid sessions tr hdr xs short p =
    let redirect : Allowed = record { raddr = args.proxy_ip; rport = u16 args.proxy_port } in
    let optlen = option_length hdr.doff in
    let offset = payload + (20 + optlen) in
    let mem = drop offset memory in
    let enough : data_length size offset ≤ length mem = omega (
      arith,
      length-drop offset memory,
      data_length-exact size offset p.begins p.small,
      p.inside,
    ) in
    let host = parse_tls_header-Returns signed_char mem (data_length size offset) [] enough in
    let o : Options = record { mss = get_default_mss ip.version; ws = 0 } in
    let decoded = options_loop-encode_options xs p.b p.c p.tail p.pad o p.others p.padded in
    let options : options_loop (suc (length xs)) (drop (payload + 20) memory) optlen o
        ≡ ok (apply_options o xs) =
      rw (p.options, p.option_bytes) decoded in
    Ends->>= (tcp_header (drop payload memory)) _ hdr p.header (
      Ends->>= (parse_tls_header signed_char mem (data_length size offset) []) _ host.name
        host.returns
        (Ends->>= (copy_proxy args) _ redirect (rw (lt→ltb (length args.proxy_ip) 47 short) refl) (
          handle_segment-Ends (suc (length xs)) sys redirect ip hdr host.name _ mem optlen _ uid
            sessions tr (find_tcp ip hdr sessions) _ enough options)))
