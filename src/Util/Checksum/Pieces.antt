-- ===== src/Util/Checksum/Pieces.antt =====
-- Checksums that are computed piece by piece and stored into a header (the packet builders of
-- app/src/main/cpp/tcp.c, udp.c and icmp.c).
use mobile_injection.Base.{
  ℕ, ◌+◌, ◌%◌, ◌^◌, ◌<◌, ◌≡◌, refl, ◌∙◌, ap, arith, List, ◌++◌, length, not16,
}
use mobile_injection.Util.Checksum.{calc_checksum}
use mobile_injection.Util.Checksum.Laws.{
  word_sum, word_sum-append, ones_complement, ones_complement_check, calc_checksum-step,
  calc_checksum-eq-ones_complement, not16-ones_complement-lt,
}

-- Bytes whose words sum to `t` and the complement of t's sum verify.
pub complement_checks :
    (t : ℕ) (xs : List ℕ)
    → t + 2 ^ 16 < 2 ^ 32
    → word_sum xs ≡ t + not16 (ones_complement t)
    → calc_checksum 0 xs ≡ 0xffff
complement_checks t xs small e =
    calc_checksum-eq-ones_complement 0 xs (omega (arith, not16-ones_complement-lt t))
    ∙ (ap ones_complement (omega arith) ∙ ones_complement_check t t 0 _ (omega arith) refl)

-- The checksum that the builder computes piece by piece, as one sum.
pieces :
    (p h o d : List ℕ)
    → word_sum p + word_sum h + word_sum o + word_sum d + 2 ^ 16 < 2 ^ 32
    → calc_checksum (calc_checksum (calc_checksum (calc_checksum 0 p) h) o) d
      ≡ ones_complement (word_sum p + word_sum h + word_sum o + word_sum d)
pieces p h o d small =
    rw
      (
        calc_checksum-eq-ones_complement 0 p (omega arith),
        calc_checksum-step (0 + word_sum p) h (omega arith),
        calc_checksum-step (0 + word_sum p + word_sum h) o (omega arith),
        calc_checksum-step (0 + word_sum p + word_sum h + word_sum o) d (omega arith),
      )
      (ap ones_complement (omega arith))

-- A header `hc` that is `h` with the complement of the checksum added verifies, behind any front `q` that
-- has the same sum as the one that the checksum was begun with.
pub sum_checks :
    (q p h hc o d : List ℕ)
    → length q % 2 ≡ 0
    → word_sum q ≡ word_sum p
    → length hc % 2 ≡ 0
    → length o % 2 ≡ 0
    → word_sum p + word_sum h + word_sum o + word_sum d + 2 ^ 17 < 2 ^ 32
    → word_sum hc
      ≡ word_sum h + not16 (calc_checksum (calc_checksum (calc_checksum (calc_checksum 0 p) h) o) d)
    → calc_checksum 0 (q ++ (hc ++ (o ++ d))) ≡ 0xffff
sum_checks q p h hc o d qe same he oe small stored =
    complement_checks t (q ++ (hc ++ (o ++ d))) (omega arith) (omega (arith, sum, stored'))
  where
    t : ℕ
    t = word_sum p + word_sum h + word_sum o + word_sum d

    stored' : word_sum hc ≡ word_sum h + not16 (ones_complement t)
    stored' = stored ∙ ap (λ x. word_sum h + not16 x) (pieces p h o d (omega arith))

    sum : word_sum (q ++ (hc ++ (o ++ d))) ≡ word_sum p + word_sum hc + word_sum o + word_sum d
    sum = omega (
      arith,
      same,
      word_sum-append q (hc ++ (o ++ d)) qe,
      word_sum-append hc (o ++ d) he,
      word_sum-append o d oe,
    )

-- The same for a header with no options behind it.
pub stored_checks :
    (q p h hc d : List ℕ)
    → length q % 2 ≡ 0
    → word_sum q ≡ word_sum p
    → length hc % 2 ≡ 0
    → word_sum p + word_sum h + word_sum d + 2 ^ 17 < 2 ^ 32
    → word_sum hc ≡ word_sum h + not16 (calc_checksum (calc_checksum (calc_checksum 0 p) h) d)
    → calc_checksum 0 (q ++ (hc ++ d)) ≡ 0xffff
stored_checks q p h hc d qe same he small stored =
    complement_checks t (q ++ (hc ++ d)) (omega arith) (omega (arith, sum, stored'))
  where
    t : ℕ
    t = word_sum p + word_sum h + word_sum d

    folded : calc_checksum (calc_checksum (calc_checksum 0 p) h) d ≡ ones_complement t
    folded =
        rw
          (
            calc_checksum-eq-ones_complement 0 p (omega arith),
            calc_checksum-step (0 + word_sum p) h (omega arith),
            calc_checksum-step (0 + word_sum p + word_sum h) d (omega arith),
          )
          (ap ones_complement (omega arith))

    stored' : word_sum hc ≡ word_sum h + not16 (ones_complement t)
    stored' = stored ∙ ap (λ x. word_sum h + not16 x) folded

    sum : word_sum (q ++ (hc ++ d)) ≡ word_sum p + word_sum hc + word_sum d
    sum = omega (arith, same, word_sum-append q (hc ++ d) qe, word_sum-append hc d he)
