-- ===== src/Tcp/Packet.antt =====
-- The packet that `write_tcp` of app/src/main/cpp/tcp.c builds. The session's addresses and ports
-- are those of the client, so source and destination change places.
pub mod Checksum
pub mod Header
use mobile_injection.Base.{
  ℕ, ◌+◌, ◌*◌, ◌/◌, ◌^◌, Bool, List, [], ◌∷◌, ◌++◌, be16, be32, le16, not16, length, if◌then◌else◌,
}
use mobile_injection.Util.Checksum.{calc_checksum}
use mobile_injection.Net.Header.{get_default_mss, pseudo_header, ip_packet, tcp_size, ipproto_tcp}
use mobile_injection.Types.{TcpSession}

abbrev pub flag : Bool → ℕ → ℕ
flag b bit = if b then bit else 0

-- The four flags that the builder can set.
pub record Flags : Type 0 where
  pub syn : Bool
  pub ack : Bool
  pub fin : Bool
  pub rst : Bool

-- The MSS and window scale options of a SYN. The MSS is stored with no htons.
unfoldable pub tcp_options : TcpSession → Flags → List ℕ
tcp_options cur f =
    if f.syn
    then 2 ∷ 4 ∷ (le16 (get_default_mss cur.version) ++ (3 ∷ 3 ∷ cur.recv_scale ∷ 0 ∷ []))
    else []

-- struct tcphdr with the check field given as two bytes.
unfoldable pub tcp_header_with : List ℕ → TcpSession → Flags → List ℕ
tcp_header_with check cur f =
    let optlen = if f.syn then 4 + 3 + 1 else 0 in
    be16 cur.dest
    ++ (be16 cur.source
        ++ (be32 cur.local_seq
            ++ (be32 (if f.ack then cur.remote_seq else 0)
                ++ (((tcp_size + optlen) / 4 * 16)
                    ∷ (flag f.fin 1 + flag f.syn 2 + flag f.rst 4 + flag f.ack 16)
                    ∷ (be16 (cur.recv_window / 2 ^ cur.recv_scale) ++ (check ++ (0 ∷ 0 ∷ [])))))))

-- The pseudo header that the checksum starts with.
unfoldable pub tcp_pseudo : TcpSession → (optlen datalen : ℕ) → List ℕ
tcp_pseudo cur optlen datalen =
    pseudo_header cur.version cur.saddr cur.daddr ipproto_tcp (tcp_size + optlen + datalen)

-- The segment: header, options and data, with the checksum continued over the three.
unfoldable pub tcp_segment : TcpSession → List ℕ → Flags → List ℕ
unfolding tcp_options tcp_header_with tcp_pseudo
tcp_segment cur bytes f =
    let options = tcp_options cur f in
    let csum = calc_checksum 0 (tcp_pseudo cur (length options) (length bytes)) in
    let csum1 = calc_checksum csum (tcp_header_with (0 ∷ 0 ∷ []) cur f) in
    let csum2 = calc_checksum csum1 options in
    let csum3 = calc_checksum csum2 bytes in
    tcp_header_with (le16 (not16 csum3)) cur f ++ (options ++ bytes)

unfoldable pub tcp_packet : TcpSession → List ℕ → Flags → List ℕ
unfolding tcp_segment
tcp_packet cur bytes f =
    ip_packet cur.version cur.saddr cur.daddr ipproto_tcp (tcp_segment cur bytes f)
