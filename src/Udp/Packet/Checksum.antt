-- ===== src/Udp/Packet/Checksum.antt =====
-- The checksums of the packets that `write_udp` builds (app/src/main/cpp/udp.c).
use mobile_injection.Base.{
  ℕ, ◌+◌, ◌%◌, ◌^◌, ◌<◌, ◌≤◌, ◌≡◌, refl, ◌∙◌, ap, arith, List, [], ◌∷◌, ◌++◌, length, IsBytes, le16,
  not16,
}
use mobile_injection.Util.Checksum.{calc_checksum}
use mobile_injection.Util.Checksum.Laws.{word_sum, word_sum-le}
use mobile_injection.Util.Checksum.Pieces.{stored_checks}
use mobile_injection.Net.Header.Pseudo.{
  IsAddress, pseudo_header_facts, receiver_pseudo, receiver_pseudo_facts,
}
use mobile_injection.Net.Header.{pseudo_header}
use mobile_injection.Types.{UdpSession}
use mobile_injection.Udp.Packet.{udp_header_with, udp_pseudo, udp_datagram}

header_word_sum :
    (c : ℕ) (cur : UdpSession) (n : ℕ)
    → c < 2 ^ 16
    → word_sum (udp_header_with (le16 c) cur n) ≡ word_sum (udp_header_with (0 ∷ 0 ∷ []) cur n) + c
unfolding udp_header_with word_sum
header_word_sum c cur n h = omega arith

length-header :
    (a b : ℕ) (cur : UdpSession) (n : ℕ) → length (udp_header_with (a ∷ b ∷ []) cur n) ≡ 8
unfolding udp_header_with
length-header a b cur n = refl

header-IsBytes : (cur : UdpSession) (n : ℕ) → IsBytes (udp_header_with (0 ∷ 0 ∷ []) cur n)
unfolding udp_header_with
header-IsBytes cur n = omega arith

-- The datagram that `write_udp` builds sums to 0xffff behind the pseudo header that a receiver makes from
-- the addresses of the packet, the protocol 17 and the length of the datagram: a receiver accepts its
-- checksum. This holds for IPv4 and IPv6, for addresses of bytes and of the size of their version, and for
-- every data of fewer than 65,528 bytes.
pub udp_datagram_checks :
    (cur : UdpSession) (bytes : List ℕ)
    → IsAddress cur.version cur.saddr
    → IsAddress cur.version cur.daddr
    → IsBytes bytes
    → length bytes < 65_528
    → calc_checksum 0 (
        receiver_pseudo cur.version cur.daddr cur.saddr 17 (length (udp_datagram cur bytes))
        ++ udp_datagram cur bytes)
      ≡ 0xffff
unfolding udp_datagram udp_pseudo
udp_datagram_checks cur bytes s d b n =
    stored_checks q p h (udp_header_with (le16 c) cur (length bytes)) bytes qs.0 qs.1 refl
      (omega (
        arith,
        ps,
        length-header 0 0 cur (length bytes),
        word_sum-le p ps.2,
        word_sum-le h (header-IsBytes cur (length bytes)),
        word_sum-le bytes b,
      ))
      (header_word_sum c cur (length bytes) (omega arith))
  where
    p : List ℕ
    p = udp_pseudo cur (length bytes)

    ps : (length p % 2 ≡ 0) × (length p ≤ 40) × IsBytes p
    ps = pseudo_header_facts cur.version 17 (8 + length bytes) cur.saddr cur.daddr s d (omega arith)

    n1 : ℕ
    n1 = length (udp_datagram cur bytes)

    size : n1 ≡ 8 + length bytes
    size = omega arith

    q : List ℕ
    q = receiver_pseudo cur.version cur.daddr cur.saddr 17 n1

    qs : (length q % 2 ≡ 0) × (word_sum q ≡ word_sum p)
    qs =
        let r =
          receiver_pseudo_facts cur.version 17 n1 cur.saddr cur.daddr s d
            (omega (arith, size, n)) in
        (r.0, r.1 ∙ ap (λ k. word_sum (pseudo_header cur.version cur.saddr cur.daddr 17 k)) size)

    h : List ℕ
    h = udp_header_with (0 ∷ 0 ∷ []) cur (length bytes)

    c : ℕ
    c = not16 (calc_checksum (calc_checksum (calc_checksum 0 p) h) bytes)
