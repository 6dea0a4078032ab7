-- ===== src/Ip/Uid.antt =====
-- `get_uid` and `get_uid_sub` of app/src/main/cpp/ip.c: the user that a socket belongs to, by the
-- tables of the kernel.
pub mod Choice
use mobile_injection.Base.{
  ℕ, Bool, true, false, ◌&&◌, ◌||◌, none, some, List, [], ◌∷◌, ◌++◌, ℤ, negsuc, is_neg, ltb, ◌==◌,
  length, replicate, if◌then◌else◌,
}
use mobile_injection.Types.{bytes_eq}
use mobile_injection.System.{System, Trace, Event, ProcLine}
use mobile_injection.Net.Header.{ipproto_icmp, ipproto_tcp, ipproto_udp, ipproto_icmpv6}
use mobile_injection.Util.Hex.{hex2bytes}

-- htonl of every word: the tables print words in the processor's order.
unfoldable pub swap_words : List ℕ → List ℕ
swap_words (a ∷ b ∷ c ∷ d ∷ rest) = d ∷ c ∷ b ∷ a ∷ swap_words rest
swap_words rest = rest

-- The number of fields, the length of the address, the port and the user of a line are valid.
abbrev pub is_valid_line : (version : ℕ) → ProcLine → Bool
is_valid_line version l =
    l.fields == 4
    && (length l.hex == (if version == 4 then 8 else 32)
        && (ltb 0 l.sport && (if is_neg l.uid then false else true)))

-- A line of the same local port gives the user; the loop ends at a line with the remote end too.
unfoldable pub table_loop :
    (version sport : ℕ) (daddr : List ℕ) (dport : ℕ) (uid : ℤ) → List ProcLine → ℤ
unfolding swap_words
table_loop version sport daddr dport uid [] = uid
table_loop version sport daddr dport uid (l ∷ rest) =
    let next = table_loop version sport daddr dport uid rest in
    let taken = table_loop version sport daddr dport l.uid rest in
    if is_valid_line version l && l.sport == sport
    then (if l.dport == dport && bytes_eq (swap_words (hex2bytes l.hex)) daddr
        then l.uid
        else taken)
    else next

-- Whether there is a table for the protocol and the version.
abbrev pub has_table : (version protocol : ℕ) → Bool
has_table version protocol =
    (protocol == ipproto_icmp && version == 4)
    || ((protocol == ipproto_icmpv6 && version == 6)
        || (protocol == ipproto_tcp || protocol == ipproto_udp))

unfoldable pub get_uid_sub :
    System → (version protocol sport : ℕ) (daddr : List ℕ) (dport : ℕ) → Trace → ℤ × Trace
unfolding table_loop
get_uid_sub sys version protocol sport daddr dport tr =
    let uid : ℤ = elim (sys.table tr protocol version) [
      | none ↦ negsuc 0
      | some lines ↦ table_loop version sport daddr dport (negsuc 0) lines
    ] in
    if has_table version protocol
    then (uid, Event.read_table protocol version ∷ tr)
    else (negsuc 0, tr)

-- An IPv4 address as one of IPv6.
abbrev pub mapped : List ℕ → List ℕ
mapped daddr = replicate 10 0 ++ (255 ∷ 255 ∷ daddr)

-- The table of IPv6 comes first.
unfoldable pub get_uid :
    System → (version protocol sport : ℕ) (daddr : List ℕ) (dport : ℕ) → Trace → ℤ × Trace
unfolding get_uid_sub
get_uid sys version protocol sport daddr dport tr =
    let (uid, tr1) =
      if version == 4
      then get_uid_sub sys 6 protocol sport (mapped daddr) dport tr
      else (negsuc 0, tr) in
    if is_neg uid then get_uid_sub sys version protocol sport daddr dport tr1 else (uid, tr1)
