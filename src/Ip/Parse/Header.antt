-- ===== src/Ip/Parse/Header.antt =====
-- The test of the header checksum (app/src/main/cpp/ip.c).
use mobile_injection.Base.{
  ℕ, ◌≡◌, ◌<◌, ◌≤◌, refl, ap, arith, true, false, ◌==◌, ltb, List, [], ◌∷◌, length-take, take, drop,
  none, if◌then◌else◌, IsBytes, IsBytes-take,
}
use mobile_injection.Base.Run.{ok, read, read_bytes, >>=-cong, EachOk-ok, read_bytes-take}
use mobile_injection.Net.Decode.{read16}
use mobile_injection.Util.Checksum.{calc_checksum}
use mobile_injection.Util.Checksum.Laws.{word_sum, word_sum-le, calc_checksum-zero_iff}
use mobile_injection.Ip.Parse.{parse_ip4}

word_sum-positive : (first : ℕ) (rest : List ℕ) → first ≤ word_sum (first ∷ rest)
unfolding word_sum
word_sum-positive first [] = omega arith
word_sum-positive first (b ∷ rest) = omega arith

header_not_zero :
    (first : ℕ) (rest : List ℕ)
    → IsBytes (first ∷ rest)
    → 0 < first
    → (calc_checksum 0 (take 20 (first ∷ rest)) == 0) ≡ false
header_not_zero first rest b h =
    let small = word_sum-le (take 20 (first ∷ rest)) (IsBytes-take 20 (first ∷ rest) b) in
    let size = length-take 20 (first ∷ rest) in
    let large = word_sum-positive first (take 19 rest) in
    let iff = calc_checksum-zero_iff 0 (take 20 (first ∷ rest)) (omega (arith, small, size)) in
    ground (arith, iff, large)

-- For a packet of bytes whose first byte is not 0, as that of every IPv4 packet: the test of the header
-- checksum drops none, whatever its checksum is. With and without the test, the same packet is taken.
pub parse_ip4-check :
    (first : ℕ) (rest : List ℕ) (size : ℕ)
    → IsBytes (first ∷ rest)
    → 0 < first
    → parse_ip4 true (first ∷ rest) size ≡ parse_ip4 false (first ∷ rest) size
unfolding parse_ip4
parse_ip4-check first rest size b h =
    let m : List ℕ = first ∷ rest in
    ap (λ parsed. if ltb size 20 then ok none else parsed)
      (>>=-cong (read m 9) _ _ (λ protocol e1. >>=-cong (read_bytes (drop 12 m) 4) _ _ (λ saddr e2.
        >>=-cong (read_bytes (drop 16 m) 4) _ _ (λ daddr e3. >>=-cong (read m 7) _ _ (λ fragment e4.
          >>=-cong (read16 m 2) _ _ (λ tot_len e5. >>=-cong (read_bytes m 20) _ _ (λ header e6.
            let whole : header ≡ take 20 m =
              EachOk-ok (λ xs. xs ≡ take 20 m) (read_bytes m 20) header (read_bytes-take m 20) e6 in
            rw (whole, header_not_zero first rest b h) refl)))))))
