-- ===== src/Tcp/Packet/Checksum.antt =====
-- The checksums of the packets that `write_tcp` builds (app/src/main/cpp/tcp.c).
use mobile_injection.Base.{
  ℕ, ◌+◌, ◌%◌, ◌^◌, ◌<◌, ◌≤◌, ◌≡◌, refl, ◌∙◌, ap, length-append, arith, List, [], ◌∷◌, ◌++◌, length,
  IsBytes, le16, not16,
}
use mobile_injection.Util.Checksum.{calc_checksum}
use mobile_injection.Util.Checksum.Laws.{word_sum, word_sum-le}
use mobile_injection.Util.Checksum.Pieces.{sum_checks}
use mobile_injection.Types.{TcpSession}
use mobile_injection.Net.Header.Pseudo.{
  IsAddress, pseudo_header_facts, receiver_pseudo, receiver_pseudo_facts,
}
use mobile_injection.Net.Header.{pseudo_header}
use mobile_injection.Tcp.Packet.{Flags, tcp_options, tcp_header_with, tcp_pseudo, tcp_segment}

-- A session whose fields fit the header fields that they are written to.
pub record IsWire (cur : TcpSession) : Type 0 where
  pub saddr : IsAddress cur.version cur.saddr
  pub daddr : IsAddress cur.version cur.daddr
  pub scale : cur.recv_scale < 256

header_word_sum :
    (c : ℕ) (cur : TcpSession) (f : Flags)
    → c < 2 ^ 16
    → word_sum (tcp_header_with (le16 c) cur f) ≡ word_sum (tcp_header_with (0 ∷ 0 ∷ []) cur f) + c
unfolding tcp_header_with word_sum
header_word_sum c cur f h = omega arith

pub length-header :
    (a b : ℕ) (cur : TcpSession) (f : Flags) → length (tcp_header_with (a ∷ b ∷ []) cur f) ≡ 20
unfolding tcp_header_with
length-header a b cur f = refl

header-IsBytes : (cur : TcpSession) (f : Flags) → IsBytes (tcp_header_with (0 ∷ 0 ∷ []) cur f)
unfolding tcp_header_with
header-IsBytes cur f = ground arith

options_facts :
    (cur : TcpSession) (f : Flags)
    → cur.recv_scale < 256
    → (length (tcp_options cur f) % 2 ≡ 0)
      × (length (tcp_options cur f) ≤ 8)
      × IsBytes (tcp_options cur f)
unfolding tcp_options
options_facts cur f h = ground arith

pseudo_facts :
    (cur : TcpSession) (n m : ℕ)
    → IsWire cur
    → (length (tcp_pseudo cur n m) % 2 ≡ 0)
      × (length (tcp_pseudo cur n m) ≤ 40)
      × IsBytes (tcp_pseudo cur n m)
unfolding tcp_pseudo
pseudo_facts cur n m w =
    pseudo_header_facts cur.version 6 (20 + n + m) cur.saddr cur.daddr w.saddr w.daddr (omega arith)

length-tcp_segment :
    (cur : TcpSession) (bytes : List ℕ) (f : Flags)
    → length (tcp_segment cur bytes f) ≡ 20 + length (tcp_options cur f) + length bytes
unfolding tcp_segment tcp_header_with
length-tcp_segment cur bytes f = omega (arith, length-append (tcp_options cur f) bytes)

-- The segment that `write_tcp` builds sums to 0xffff behind the pseudo header that a receiver makes from the
-- addresses of the packet, the protocol 6 and the length of the segment: a receiver accepts its
-- checksum. This holds for IPv4 and IPv6, for every choice of the flags, for addresses of bytes and of the
-- size of their version, a window scale below 256 and fewer than 65,000 bytes of data.
pub tcp_segment_checks :
    (cur : TcpSession) (bytes : List ℕ) (f : Flags)
    → IsWire cur
    → IsBytes bytes
    → length bytes < 65_000
    → calc_checksum 0 (
        receiver_pseudo cur.version cur.daddr cur.saddr 6 (length (tcp_segment cur bytes f))
        ++ tcp_segment cur bytes f)
      ≡ 0xffff
unfolding tcp_segment tcp_pseudo
tcp_segment_checks cur bytes f w b n =
    sum_checks q p h (tcp_header_with (le16 c) cur f) o bytes qs.0 qs.1 refl os.0
      (omega (
        arith,
        ps,
        os,
        length-header 0 0 cur f,
        word_sum-le p ps.2,
        word_sum-le h (header-IsBytes cur f),
        word_sum-le o os.2,
        word_sum-le bytes b,
      ))
      (header_word_sum c cur f (omega arith))
  where
    o : List ℕ
    o = tcp_options cur f

    os : (length o % 2 ≡ 0) × (length o ≤ 8) × IsBytes o
    os = options_facts cur f w.scale

    p : List ℕ
    p = tcp_pseudo cur (length o) (length bytes)

    ps : (length p % 2 ≡ 0) × (length p ≤ 40) × IsBytes p
    ps = pseudo_facts cur (length o) (length bytes) w

    n1 : ℕ
    n1 = length (tcp_segment cur bytes f)

    size : n1 ≡ 20 + length o + length bytes
    size = length-tcp_segment cur bytes f

    q : List ℕ
    q = receiver_pseudo cur.version cur.daddr cur.saddr 6 n1

    qs : (length q % 2 ≡ 0) × (word_sum q ≡ word_sum p)
    qs =
        let r =
          receiver_pseudo_facts cur.version 6 n1 cur.saddr cur.daddr w.saddr w.daddr
            (omega (arith, size, os, n)) in
        (r.0, r.1 ∙ ap (λ k. word_sum (pseudo_header cur.version cur.saddr cur.daddr 6 k)) size)

    h : List ℕ
    h = tcp_header_with (0 ∷ 0 ∷ []) cur f

    c : ℕ
    c = not16 (calc_checksum (calc_checksum (calc_checksum (calc_checksum 0 p) h) o) bytes)
