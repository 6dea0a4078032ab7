-- ===== src/Icmp/Packet.antt =====
-- The messages of app/src/main/cpp/icmp.c and `write_icmp`.
pub mod Checksum
use mobile_injection.Base.{
  ℕ, ◌+◌, ◌^◌, ◌-◌, ◌%◌, ◌/◌, List, [], ◌∷◌, ◌++◌, ℤ, pos, negsuc, eq_ℤ, ◌==◌, be16, le16, not16,
  length, if◌then◌else◌,
}
use mobile_injection.Base.Run.{◌>>=◌, Run, read_bytes, store}
use mobile_injection.Util.Checksum.{calc_checksum}
use mobile_injection.Net.Header.{ip_packet, ipproto_icmp, ipproto_icmpv6}
use mobile_injection.Types.{IcmpSession}
use mobile_injection.System.{System, Trace, Event}

-- The identifier is written into the message of n bytes at the start of the memory, and its checksum
-- is computed again from a start value.
unfoldable pub set_echo : (start id n : ℕ) (memory : List ℕ) → Run (List ℕ)
set_echo start id n memory = do
  m1 ← store memory 4 (be16 id)
  m2 ← store m1 2 (0 ∷ 0 ∷ [])
  message ← read_bytes m2 n
  store m2 2 (le16 (not16 (calc_checksum start message)))

-- A uint32_t as a little-endian processor stores it.
abbrev pub le32 : ℕ → List ℕ
le32 n = (n % 256) ∷ (n / 256 % 256) ∷ (n / 2 ^ 16 % 256) ∷ (n / 2 ^ 24 % 256) ∷ []

-- The pseudo header of an answer: its length is that of the message less 40, in host order.
unfoldable pub answer_pseudo : IcmpSession → (n : ℕ) → List ℕ
answer_pseudo cur n =
    cur.daddr ++ (cur.saddr ++ (le32 (n + 2 ^ 32 - 40) ++ (0 ∷ 0 ∷ 0 ∷ ipproto_icmpv6 ∷ [])))

unfoldable pub icmp_packet : IcmpSession → List ℕ → List ℕ
icmp_packet cur bytes =
    ip_packet cur.version cur.saddr cur.daddr
      (if cur.version == 4 then ipproto_icmp else ipproto_icmpv6) bytes

-- The result is -1 if the tun device did not take the whole packet.
unfoldable pub write_icmp : System → IcmpSession → List ℕ → Trace → ℤ × Trace
unfolding icmp_packet
write_icmp sys cur bytes tr =
    let packet = icmp_packet cur bytes in
    let res = sys.write tr packet in
    (if eq_ℤ res (pos (length packet)) then res else negsuc 0, Event.wrote packet ∷ tr)
