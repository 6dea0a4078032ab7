-- ===== src/Net/Header.antt =====
-- The headers that the packet builders write, as lists of bytes.
pub mod Checksum
pub mod Pseudo
use mobile_injection.Base.{
  ℕ, ◌+◌, ◌-◌, ◌==◌, List, [], ◌∷◌, ◌++◌, be16, le16, u16, not16, if◌then◌else◌, length,
}
use mobile_injection.Util.Checksum.{calc_checksum}

abbrev pub mtu : ℕ
mtu = 10000

unfoldable pub get_mtu : ℕ
get_mtu = mtu

-- sizeof(struct iphdr), sizeof(struct ip6_hdr), sizeof(struct tcphdr) and sizeof(struct udphdr).
abbrev pub ip4_size : ℕ
ip4_size = 20

abbrev pub ip6_size : ℕ
ip6_size = 40

abbrev pub tcp_size : ℕ
tcp_size = 20

abbrev pub udp_size : ℕ
udp_size = 8

abbrev pub ipproto_icmp : ℕ
ipproto_icmp = 1

abbrev pub ipproto_tcp : ℕ
ipproto_tcp = 6

abbrev pub ipproto_udp : ℕ
ipproto_udp = 17

abbrev pub ipproto_icmpv6 : ℕ
ipproto_icmpv6 = 58

-- IPDEFTTL of netinet/ip.h.
abbrev pub default_ttl : ℕ
default_ttl = 64

unfoldable pub get_default_mss : ℕ → ℕ
unfolding get_mtu
get_default_mss version =
    if version == 4
    then u16 (get_mtu - ip4_size - tcp_size)
    else u16 (get_mtu - ip6_size - tcp_size)

-- struct iphdr with the check field given as two bytes: version 4, ihl 5, tot_len, ttl, protocol.
abbrev pub ip4_with : List ℕ → (len protocol : ℕ) → (saddr daddr : List ℕ) → List ℕ
ip4_with check len protocol saddr daddr =
    0x45 ∷ 0 ∷ (be16 len ++ (0 ∷ 0 ∷ 0 ∷ 0 ∷ default_ttl ∷ protocol ∷ (check ++ (saddr ++ daddr))))

-- "Build IP4 header": the check field is computed over the header in which it is 0.
unfoldable pub ip4_header : (len protocol : ℕ) → (saddr daddr : List ℕ) → List ℕ
ip4_header len protocol saddr daddr =
    let check = not16 (calc_checksum 0 (ip4_with (0 ∷ 0 ∷ []) len protocol saddr daddr)) in
    ip4_with (le16 check) len protocol saddr daddr

-- struct ippseudo.
abbrev pub ip4_pseudo : (saddr daddr : List ℕ) → (protocol len : ℕ) → List ℕ
ip4_pseudo saddr daddr protocol len = saddr ++ (daddr ++ (0 ∷ protocol ∷ be16 len))

-- "Build IP6 header": version 6, plen, nxt, hlim.
abbrev pub ip6_header : (plen protocol : ℕ) → (saddr daddr : List ℕ) → List ℕ
ip6_header plen protocol saddr daddr =
    0x60 ∷ 0 ∷ 0 ∷ 0 ∷ (be16 plen ++ (protocol ∷ default_ttl ∷ (saddr ++ daddr)))

-- struct ip6_hdr_pseudo. The 16-bit plen, in network order, is stored into the 32-bit ip6ph_len by
-- a little-endian processor.
abbrev pub ip6_pseudo : (src dst : List ℕ) → (plen protocol : ℕ) → List ℕ
ip6_pseudo src dst plen protocol =
    src ++ (dst ++ (be16 plen ++ (0 ∷ 0 ∷ 0 ∷ 0 ∷ 0 ∷ protocol ∷ [])))

-- The pseudo header of the packet that goes to the client of a session with these addresses.
abbrev pub pseudo_header : (version : ℕ) (saddr daddr : List ℕ) (protocol len : ℕ) → List ℕ
pseudo_header version saddr daddr protocol len =
    if version == 4
    then ip4_pseudo daddr saddr protocol len
    else ip6_pseudo saddr daddr len protocol

-- The packet that goes to that client: the addresses change places.
abbrev pub ip_packet : (version : ℕ) (saddr daddr : List ℕ) (protocol : ℕ) → List ℕ → List ℕ
ip_packet version saddr daddr protocol bytes =
    if version == 4
    then ip4_header (ip4_size + length bytes) protocol daddr saddr ++ bytes
    else ip6_header (length bytes) protocol daddr saddr ++ bytes
