-- ===== src/Util/Serial/Order.antt =====
-- The order that `compare_u32` of app/src/main/cpp/util.c decides.
use mobile_injection.Base.{
  ℕ, Bool, ◌&&◌, not, ◌==◌, ltb, is_neg, ◌+◌, ◌%◌, ◌^◌, ◌<◌, ◌≤◌, ◌≡◌, ◌≢◌, ◌↔◌, ◌⊎◌, arith, pos,
  negsuc, add32,
}
use mobile_injection.Util.Serial.{compare_u32}

-- The position of a 32-bit number in the order of the signed integers.
abbrev pub bias : ℕ → ℕ
bias s = (s + 2 ^ 31) % 2 ^ 32

-- For 32-bit numbers `compare_u32` answers -1 exactly when the first is less than the second as a
-- signed integer and the distance is not 0x7fffffff; it answers 0 exactly on equal numbers.
pub compare_u32-signed :
    (s1 s2 : ℕ)
    → s1 < 2 ^ 32
    → s2 < 2 ^ 32
    → ((compare_u32 s1 s2 ≡ negsuc 0) ↔ ((bias s1 < bias s2) × (bias s2 ≢ bias s1 + 0x7fff_ffff)))
      × ((compare_u32 s1 s2 ≡ pos 0) ↔ (s1 ≡ s2))
unfolding compare_u32
compare_u32-signed s1 s2 h k = (ground arith, ground arith)

-- Whether a number is less than another as a signed integer, except at the distance 0x7fffffff.
abbrev pub is_before : ℕ → ℕ → Bool
is_before s1 s2 = ltb (bias s1) (bias s2) && not (bias s2 == bias s1 + 0x7fff_ffff)

pub is_neg-compare_u32 :
    (s1 s2 : ℕ) → s1 < 2 ^ 32 → s2 < 2 ^ 32 → is_neg (compare_u32 s1 s2) ≡ is_before s1 s2
unfolding compare_u32
is_neg-compare_u32 s1 s2 h k = ground arith

-- The three outcomes, for numbers that are not at the distance 0x7fffffff.
pub compare_u32-cases :
    (s1 s2 : ℕ)
    → s1 < 2 ^ 32
    → s2 < 2 ^ 32
    → bias s2 ≢ bias s1 + 0x7fff_ffff
    → bias s1 ≢ bias s2 + 0x7fff_ffff
    → ((compare_u32 s1 s2 ≡ negsuc 0) × (bias s1 < bias s2))
      ⊎ (((compare_u32 s1 s2 ≡ pos 1) × (bias s2 < bias s1))
          ⊎ ((compare_u32 s1 s2 ≡ pos 0) × (s1 ≡ s2)))
unfolding compare_u32
compare_u32-cases s1 s2 h k n m = ground arith

-- A number d ahead of s1, with 0 < d < 0x7fffffff and modulo 2 ^ 32, compares as later, and s1 as
-- earlier, unless the step goes over 2 ^ 31 from below.
pub compare_u32-ahead :
    (s1 d : ℕ)
    → s1 < 2 ^ 32
    → 0 < d
    → d < 0x7fff_ffff
    → ¬ ((s1 < 2 ^ 31) × (2 ^ 31 ≤ s1 + d))
    → (compare_u32 s1 (add32 s1 d) ≡ negsuc 0) × (compare_u32 (add32 s1 d) s1 ≡ pos 1)
unfolding compare_u32
compare_u32-ahead s1 d h k l n = ground arith

-- When the step goes over 2 ^ 31 from below, the later number compares as earlier, however short
-- the step.
pub compare_u32-over_half :
    (s1 d : ℕ)
    → s1 < 2 ^ 31
    → 2 ^ 31 ≤ s1 + d
    → d < 0x7fff_ffff
    → (compare_u32 s1 (add32 s1 d) ≡ pos 1) × (compare_u32 (add32 s1 d) s1 ≡ negsuc 0)
unfolding compare_u32
compare_u32-over_half s1 d h k l = ground arith
