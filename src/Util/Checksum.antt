-- ===== src/Util/Checksum.antt =====
-- `calc_checksum` of app/src/main/cpp/util.c. The buffer is the list of its `length` bytes, read by
-- a little-endian processor.
pub mod Laws
pub mod Pieces
use mobile_injection.Base.{
  ℕ, zero, suc, ◌+◌, ◌*◌, ◌/◌, ◌%◌, ◌==◌, List, [], ◌∷◌, add32, u16, if◌then◌else◌,
}

-- The loop over the 16-bit words; a last odd byte is added alone.
unfoldable pub sum_words : ℕ → List ℕ → ℕ
sum_words sum [] = sum
sum_words sum (a ∷ []) = add32 sum a
sum_words sum (a ∷ b ∷ rest) = sum_words (add32 sum (a + 256 * b)) rest

-- `while (sum >> 16) sum = (sum & 0xFFFF) + (sum >> 16)`, with a number of rounds.
unfoldable pub fold_carries : ℕ → ℕ → ℕ
fold_carries zero sum = sum
fold_carries (suc rounds) sum =
    let rest = fold_carries rounds (sum % 0x10000 + sum / 0x10000) in
    if sum / 0x10000 == 0 then sum else rest

-- Three rounds are enough for a 32-bit sum.
unfoldable pub calc_checksum : ℕ → List ℕ → ℕ
unfolding sum_words fold_carries
calc_checksum start buffer = u16 (fold_carries 3 (sum_words start buffer))
