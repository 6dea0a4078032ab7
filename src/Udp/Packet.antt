-- ===== src/Udp/Packet.antt =====
-- `write_udp` of app/src/main/cpp/udp.c: the packet that it builds and writes to the tun device. The
-- session's addresses and ports are those of the client, so source and destination change places.
pub mod Checksum
use mobile_injection.Base.{
  ℕ, ◌+◌, List, [], ◌∷◌, ◌++◌, ℤ, pos, negsuc, eq_ℤ, be16, le16, not16, length, if◌then◌else◌,
}
use mobile_injection.Util.Checksum.{calc_checksum}
use mobile_injection.Net.Header.{pseudo_header, ip_packet, udp_size, ipproto_udp}
use mobile_injection.Types.{UdpSession}
use mobile_injection.System.{System, Trace, Event}

-- struct udphdr with the check field given as two bytes.
unfoldable pub udp_header_with : List ℕ → UdpSession → (datalen : ℕ) → List ℕ
udp_header_with check cur datalen =
    be16 cur.dest ++ (be16 cur.source ++ (be16 (udp_size + datalen) ++ check))

-- The pseudo header that the checksum starts with.
unfoldable pub udp_pseudo : UdpSession → (datalen : ℕ) → List ℕ
udp_pseudo cur datalen =
    pseudo_header cur.version cur.saddr cur.daddr ipproto_udp (udp_size + datalen)

-- The header and the data, with the checksum continued over the two.
unfoldable pub udp_datagram : UdpSession → List ℕ → List ℕ
unfolding udp_header_with udp_pseudo
udp_datagram cur bytes =
    let csum = calc_checksum 0 (udp_pseudo cur (length bytes)) in
    let csum1 = calc_checksum csum (udp_header_with (0 ∷ 0 ∷ []) cur (length bytes)) in
    let csum2 = calc_checksum csum1 bytes in
    udp_header_with (le16 (not16 csum2)) cur (length bytes) ++ bytes

unfoldable pub udp_packet : UdpSession → List ℕ → List ℕ
unfolding udp_datagram
udp_packet cur bytes =
    ip_packet cur.version cur.saddr cur.daddr ipproto_udp (udp_datagram cur bytes)

-- The result is -1 if the tun device did not take the whole packet.
unfoldable pub write_udp : System → UdpSession → List ℕ → Trace → ℤ × Trace
write_udp sys cur bytes tr =
    let packet = udp_packet cur bytes in
    let res = sys.write tr packet in
    (if eq_ℤ res (pos (length packet)) then res else negsuc 0, Event.wrote packet ∷ tr)
