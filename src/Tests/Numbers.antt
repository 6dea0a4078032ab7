-- ===== src/Tests/Numbers.antt =====
-- The sequence numbers and the checksum at concrete values.
use mobile_injection.Base.{ℕ, ◌+◌, ◌≡◌, ◌≢◌, ◌↔◌, ◌<◌, arith, List, [], ◌∷◌, pos, negsuc}
use mobile_injection.Util.Serial.{compare_u32}
use mobile_injection.Util.Serial.Order.{bias, compare_u32-signed}
use mobile_injection.Util.Checksum.{calc_checksum}
use mobile_injection.Util.Checksum.Laws.{
  word_sum, ones_complement, calc_checksum-eq-ones_complement,
}

abbrev buffer : List ℕ
buffer = 0x45 ∷ 0x12 ∷ 0xff ∷ 0xfe ∷ []

abbrev seven : ℕ
seven = 7

compare_u32-signed_example :
    ((compare_u32 7 4_000_000_000 ≡ negsuc 0)
      ↔ ((bias 7 < bias 4_000_000_000) × (bias 4_000_000_000 ≢ bias 7 + 0x7fff_ffff)))
    × ((compare_u32 7 4_000_000_000 ≡ pos 0) ↔ (seven ≡ 4_000_000_000))
compare_u32-signed_example = compare_u32-signed 7 4_000_000_000 (omega arith) (omega arith)

calc_checksum-eq-ones_complement_example :
    calc_checksum 5 buffer ≡ ones_complement (5 + word_sum buffer)
unfolding word_sum
calc_checksum-eq-ones_complement_example = calc_checksum-eq-ones_complement 5 buffer (omega arith)
