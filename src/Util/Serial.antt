-- ===== src/Util/Serial.antt =====
-- `compare_u32` of app/src/main/cpp/util.c, by which TCP sequence numbers are ordered.
pub mod Order
use mobile_injection.Base.{
  ℕ, ◌&&◌, ◌||◌, ◌==◌, if◌then◌else◌, ℤ, pos, negsuc, ltb_ℤ, signed32, sub32,
}

-- The `int` differences wrap in 32 bits, as the processors that the library is built for compute
-- them.
unfoldable pub compare_u32 : ℕ → ℕ → ℤ
compare_u32 s1 s2 =
    if s1 == s2
    then pos 0
    else let i1 = signed32 s1 in
      let i2 = signed32 s2 in
      if (ltb_ℤ i1 i2 && ltb_ℤ (signed32 (sub32 s2 s1)) (pos 0x7fff_ffff))
        || (ltb_ℤ i2 i1 && ltb_ℤ (pos 0x7fff_ffff) (signed32 (sub32 s1 s2)))
      then negsuc 0
      else pos 1
