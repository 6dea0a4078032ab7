-- ===== src/Net/Header/Checksum.antt =====
-- The header checksum of the IPv4 headers that the packet builders write (app/src/main/cpp/tcp.c).
use mobile_injection.Base.{
  ℕ, ◌+◌, ◌*◌, ◌^◌, ◌<◌, ◌≤◌, ◌≡◌, ◌∙◌, ap, arith, List, [], ◌∷◌, ◌++◌, length, length-append,
  IsBytes, All-append, be16, le16, not16,
}
use mobile_injection.Util.Checksum.{calc_checksum}
use mobile_injection.Util.Checksum.Laws.{
  word_sum, word_sum-le, ones_complement, ones_complement_check, calc_checksum-eq-ones_complement,
}
use mobile_injection.Net.Header.{ip4_header, ip4_with}

stored_check :
    (c len protocol : ℕ) (saddr daddr : List ℕ)
    → c < 2 ^ 16
    → word_sum (ip4_with (le16 c) len protocol saddr daddr)
      ≡ word_sum (ip4_with (0 ∷ 0 ∷ []) len protocol saddr daddr) + c
unfolding word_sum
stored_check c len protocol saddr daddr h = omega arith

module _ (len protocol : ℕ) (saddr daddr : List ℕ) (small : protocol < 256)
    (s_size : length saddr ≡ 4) (d_size : length daddr ≡ 4) (s : IsBytes saddr)
    (d : IsBytes daddr) where
  abbrev blank : List ℕ
  blank = ip4_with (0 ∷ 0 ∷ []) len protocol saddr daddr

  word_sum-blank : 2 * word_sum blank ≤ 0xffff * 21
  word_sum-blank = omega (arith, word_sum-le blank bytes, length-append saddr daddr)
    where
      bytes : IsBytes blank
      bytes =
          All-append _ (0x45 ∷ 0 ∷ (be16 len ++ (0 ∷ 0 ∷ 0 ∷ 0 ∷ 64 ∷ protocol ∷ 0 ∷ 0 ∷ [])))
            (saddr ++ daddr) (omega arith) (All-append _ saddr daddr s d)

  -- For addresses of four bytes each and a protocol number below 256: the IPv4 header that the builders
  -- write is 20 bytes long, and its words sum to 0xffff, as a receiver requires.
  pub ip4_header_checks :
      (length (ip4_header len protocol saddr daddr) ≡ 20)
      × (calc_checksum 0 (ip4_header len protocol saddr daddr) ≡ 0xffff)
  unfolding ip4_header
  ip4_header_checks = (
    omega (arith, length-append saddr daddr),
    calc_checksum-eq-ones_complement 0 _ (omega (arith, stored, word_sum-blank, c_small))
        ∙ (ap ones_complement (omega (arith, stored))
            ∙ ones_complement_check (word_sum blank) (word_sum blank) 0 _ (omega arith) c_eq),
  )
    where
      c : ℕ
      c = not16 (calc_checksum 0 blank)

      c_eq : c ≡ not16 (ones_complement (word_sum blank))
      c_eq = ap not16 (
          calc_checksum-eq-ones_complement 0 blank (omega (arith, word_sum-blank))
          ∙ ap ones_complement (omega arith))

      c_small : c < 2 ^ 16
      c_small = omega arith

      stored : word_sum (ip4_with (le16 c) len protocol saddr daddr) ≡ word_sum blank + c
      stored = stored_check c len protocol saddr daddr c_small
