-- ===== src/Tests/Datagrams.antt =====
-- Datagrams and names at concrete values.
use mobile_injection.Base.{◌≡◌, refl, arith, true, false, List, [], ◌∷◌, ◌++◌, ℕ, length, replicate}
use mobile_injection.Base.Run.{out_of_fuel, Settles}
use mobile_injection.Util.Checksum.{calc_checksum}
use mobile_injection.Util.Hex.{hex2bytes}
use mobile_injection.Util.Hex.Digits.{print_bytes, hex2bytes-print_bytes}
use mobile_injection.Http.Headers.{is_blank}
use mobile_injection.Util.Text.{trim}
use mobile_injection.Util.Text.Trimmed.{AreSpaces, IsTrimmed, trim_lem}
use mobile_injection.Net.Header.Pseudo.{receiver_pseudo}
use mobile_injection.Udp.Packet.{udp_datagram}
use mobile_injection.Udp.Packet.Checksum.{udp_datagram_checks}
use mobile_injection.Icmp.Packet.Checksum.{IsRestored, set_echo-IsRestored}
use mobile_injection.Dns.{get_qname, name_buffer}
use mobile_injection.Dns.Names.{encode_labels}
use mobile_injection.Dns.Pointers.{get_qname-PointsToItself}
use mobile_injection.Dns.RoundTrip.{IsName, get_qname-encode_labels}
use mobile_injection.Ip.Parse.{skip_extensions, parse_ip4}
use mobile_injection.Ip.Parse.Extensions.{skip_extensions-none}
use mobile_injection.Ip.Parse.Header.{parse_ip4-check}
use mobile_injection.Tests.Data.{udp_session, hop_by_hop, ip4_packet}

abbrev bytes : List ℕ
bytes = 72 ∷ 105 ∷ 33 ∷ []

udp_datagram_checks_example :
    calc_checksum 0 (
      receiver_pseudo udp_session.version udp_session.daddr udp_session.saddr 17
        (length (udp_datagram udp_session bytes))
      ++ udp_datagram udp_session bytes)
    ≡ 0xffff
udp_datagram_checks_example =
    udp_datagram_checks udp_session bytes (record { size = refl; bytes = omega arith })
      (record { size = refl; bytes = omega arith }) (omega arith) (omega arith)

set_echo-IsRestored_example : IsRestored 4660 9 (8 ∷ 0 ∷ 1 ∷ 2 ∷ 3 ∷ 4 ∷ 0 ∷ 1 ∷ 65 ∷ 66 ∷ [])
set_echo-IsRestored_example =
    set_echo-IsRestored 4660 9 8 0 1 2 3 4 (0 ∷ 1 ∷ 65 ∷ 66 ∷ []) (omega arith) (omega arith)
      (omega arith) (omega arith) (omega arith)

hex2bytes-print_bytes_example : hex2bytes (print_bytes true (10 ∷ 1 ∷ 171 ∷ [])) ≡ 10 ∷ 1 ∷ 171 ∷ []
hex2bytes-print_bytes_example = hex2bytes-print_bytes true (10 ∷ 1 ∷ 171 ∷ []) (omega arith)

skip_extensions-none_example : Settles (λ (r : ℕ × ℕ). r ≡ (0, 0)) (skip_extensions 8 hop_by_hop 0)
skip_extensions-none_example =
    skip_extensions-none 7 hop_by_hop 0 (omega arith) (omega arith) (omega arith)

parse_ip4-check_example :
    parse_ip4 true (0x45 ∷ ip4_packet) 24 ≡ parse_ip4 false (0x45 ∷ ip4_packet) 24
parse_ip4-check_example = parse_ip4-check 0x45 ip4_packet 24 (omega arith) (omega arith)

-- The question for a.bc behind a header.
abbrev message : List ℕ
message = replicate 12 0 ++ (1 ∷ 97 ∷ 2 ∷ 98 ∷ 99 ∷ 0 ∷ 0 ∷ 1 ∷ 0 ∷ 1 ∷ [])

get_qname-encode_labels_example : IsName message 22 12 ((97 ∷ []) ∷ (98 ∷ 99 ∷ []) ∷ [])
unfolding encode_labels
get_qname-encode_labels_example =
    get_qname-encode_labels message 22 12 (97 ∷ []) ((98 ∷ 99 ∷ []) ∷ []) (0 ∷ 1 ∷ 0 ∷ 1 ∷ []) refl
      ((omega arith, omega arith), ((omega arith, omega arith), tt)) (omega arith) (omega arith)
      (omega arith)

get_qname-PointsToItself_example :
    get_qname 100 (replicate 12 0 ++ (192 ∷ 12 ∷ [])) 14 12 name_buffer ≡ out_of_fuel
get_qname-PointsToItself_example =
    get_qname-PointsToItself (replicate 12 0 ++ (192 ∷ 12 ∷ [])) 14 12
      (record {
        high = 192;
        low = 12;
        first = refl;
        second = refl;
        pointer = omega arith;
        target = refl;
      })
      100

-- A space and a tab in front of two letters with a space between them, and one behind.
abbrev spaced : List ℕ
spaced = 32 ∷ 9 ∷ 97 ∷ 32 ∷ 98 ∷ 32 ∷ []

trim-spaced : trim is_blank spaced ≡ 97 ∷ 32 ∷ 98 ∷ []
unfolding trim
trim-spaced = refl

trim_example :
    (lead : List ℕ) × ((trail : List ℕ) × ((spaced ≡ lead ++ (trim is_blank spaced ++ trail))
        × (AreSpaces is_blank lead
            × (AreSpaces is_blank trail × IsTrimmed is_blank (trim is_blank spaced)))))
trim_example = trim_lem is_blank spaced
