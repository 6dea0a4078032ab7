-- ===== src/Ip/Parse.antt =====
-- "Get protocol, addresses & payload" and "Get ports & flags" of `handle_ip`
-- (app/src/main/cpp/ip.c).
pub mod Extensions
pub mod Header
use mobile_injection.Base.{
  ℕ, zero, suc, ◌+◌, ◌*◌, ◌/◌, ◌%◌, Bool, false, not, ◌&&◌, ◌||◌, Option, none, some, List, ltb,
  ◌==◌, drop, u8, u16, if◌then◌else◌,
}
use mobile_injection.Base.Run.{◌>>=◌, Run, ok, out_of_fuel, read, read_bytes}
use mobile_injection.Util.Checksum.{calc_checksum}
use mobile_injection.Net.Header.{
  ipproto_icmp, ipproto_tcp, ipproto_udp, ipproto_icmpv6, ip4_size, ip6_size, tcp_size, udp_size,
}
use mobile_injection.Net.Decode.{read16, tcp_header, udp_header, size_sub, Addresses}

unfoldable pub is_lower_layer : ℕ → Bool
is_lower_layer protocol =
    protocol == 0
    || (protocol == 60
        || (protocol == 43
            || (protocol == 44 || (protocol == 51 || (protocol == 50 || protocol == 135)))))

abbrev pub is_icmp : ℕ → Bool
is_icmp protocol = protocol == ipproto_icmp || protocol == ipproto_icmpv6

unfoldable pub is_upper_layer : ℕ → Bool
is_upper_layer protocol = protocol == ipproto_tcp || (protocol == ipproto_udp || is_icmp protocol)

-- What the code takes from the IP header; `payload` is an offset into the packet.
pub record Packet : Type 0 where
  pub protocol : ℕ
  pub addresses : Addresses
  pub payload : ℕ

-- ip4hdr->frag_off & IP_MF, where frag_off is read by a little-endian processor without ntohs: bit 13
-- of that number is bit 5 of the second byte.
abbrev pub more_fragments : (second : ℕ) → Bool
more_fragments second = second / 32 % 2 == 1

-- The header of version 4; nothing is an early return. `check` is loglevel < ANDROID_LOG_WARN.
unfoldable pub parse_ip4 : (check : Bool) (memory : List ℕ) (size : ℕ) → Run (Option Packet)
unfolding read_bytes
parse_ip4 check memory size =
    let parsed = (do
      first ← read memory 0
      protocol ← read memory 9
      saddr ← read_bytes (drop 12 memory) 4
      daddr ← read_bytes (drop 16 memory) 4
      fragment ← read memory 7
      tot_len ← read16 memory 2
      header ← read_bytes memory ip4_size
      let bad_checksum = check && calc_checksum 0 header == 0
      let packet : Packet = record {
        protocol = protocol;
        addresses = record { version = 4; saddr = saddr; daddr = daddr };
        payload = ip4_size + u8 (first % 16 * 4 + 236);
      }
      ok (
          if more_fragments fragment || (not (tot_len == size) || bad_checksum)
          then none
          else some packet)) in
    if ltb size ip4_size then ok none else parsed

-- The loop over extension headers: the protocol and the offset with which it ends.
unfoldable pub extension_loop : (fuel : ℕ) (memory : List ℕ) (off protocol : ℕ) → Run (ℕ × ℕ)
extension_loop zero memory off protocol = out_of_fuel
extension_loop (suc fuel) memory off protocol = do
  nxt ← read memory off
  let next = (do
    len ← read memory (off + 1)
    extension_loop fuel memory (u16 (off + (8 + len))) nxt)
  if is_lower_layer nxt && not (is_upper_layer protocol) then next else ok (protocol, off)

-- "Skip extension headers": the protocol, and how far the payload lies behind the header.
unfoldable pub skip_extensions : (fuel : ℕ) (memory : List ℕ) (nxt : ℕ) → Run (ℕ × ℕ)
unfolding extension_loop is_upper_layer
skip_extensions fuel memory nxt =
    let skipped = (do
      (protocol, off) ← extension_loop fuel memory ip6_size nxt
      ok (if is_upper_layer protocol then (protocol, off) else (nxt, 0))) in
    if is_upper_layer nxt then ok (nxt, 0) else skipped

-- The header of version 6.
unfoldable pub parse_ip6 : (fuel : ℕ) (memory : List ℕ) (size : ℕ) → Run (Option Packet)
unfolding skip_extensions
parse_ip6 fuel memory size =
    let parsed = (do
      nxt ← read memory 6
      (protocol, off) ← skip_extensions fuel memory nxt
      saddr ← read_bytes (drop 8 memory) 16
      daddr ← read_bytes (drop 24 memory) 16
      ok (
          some (record {
            protocol = protocol;
            addresses = record { version = 6; saddr = saddr; daddr = daddr };
            payload = ip6_size + off;
          }))) in
    if ltb size ip6_size then ok none else parsed

unfoldable pub parse_ip :
    (check : Bool) (fuel : ℕ) (memory : List ℕ) (size : ℕ) → Run (Option Packet)
unfolding parse_ip4 parse_ip6
parse_ip check fuel memory size = do
  first ← read memory 0
  let ip4 = parse_ip4 check memory size
  let ip6 = parse_ip6 fuel memory size
  if first / 16 == 4 then ip4 else if first / 16 == 6 then ip6 else ok none

pub record Ports : Type 0 where
  pub sport : ℕ
  pub dport : ℕ
  pub syn : Bool

-- sizeof(struct icmp) of netinet/ip_icmp.h, with the header that an error message quotes.
abbrev pub icmp_size : ℕ
icmp_size = 28

-- The ports of the payload; nothing is the early return for a short packet.
unfoldable pub parse_ports : Packet → (memory : List ℕ) (size : ℕ) → Run (Option Ports)
parse_ports p memory size =
    let rest = size_sub size p.payload in
    let payload = drop p.payload memory in
    let icmp = (do
      id ← read16 payload 4
      ok (some (record { sport = id; dport = id; syn = false }))) in
    let udp = (do
      hdr ← udp_header payload
      ok (some (record { sport = hdr.source; dport = hdr.dest; syn = false }))) in
    let tcp = (do
      hdr ← tcp_header payload
      ok (some (record { sport = hdr.source; dport = hdr.dest; syn = hdr.syn }))) in
    if is_icmp p.protocol
    then (if ltb rest icmp_size then ok none else icmp)
    else if p.protocol == ipproto_udp
    then (if ltb rest udp_size then ok none else udp)
    else if p.protocol == ipproto_tcp
    then (if ltb rest tcp_size then ok none else tcp)
    else ok (some (record { sport = 0; dport = 0; syn = false }))
