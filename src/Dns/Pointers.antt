-- ===== src/Dns/Pointers.antt =====
-- Compression pointers in `get_qname` (app/src/main/cpp/dns.c).
use mobile_injection.Base.{
  ℕ, zero, suc, ◌+◌, ◌*◌, ◌%◌, ◌≡◌, ◌≤◌, refl, arith, true, false, ◌==◌, leb, overwrite, List, [],
  ◌∷◌,
}
use mobile_injection.Base.Run.{ok, out_of_fuel, read}
use mobile_injection.Dns.{Walk, follow, qname_loop, get_qname, name_buffer}

-- A pointer at an offset that leads to the offset itself.
pub record PointsToItself (memory : List ℕ) (ptr : ℕ) : Type 0 where
  pub high : ℕ
  pub low : ℕ
  pub first : read memory ptr ≡ ok high
  pub second : read memory (ptr + 1) ≡ ok low
  pub pointer : 64 ≤ high
  pub target : high % 64 * 256 + low ≡ ptr

module _ (memory : List ℕ) (datalen ptr : ℕ) (p : PointsToItself memory ptr) where
  qname_loop-PointsToItself :
      (fuel : ℕ) (w : Walk)
      → w.ptr ≡ ptr
      → w.len ≡ p.high
      → qname_loop fuel memory datalen w ≡ out_of_fuel
  unfolding qname_loop follow
  qname_loop-PointsToItself zero w e f = refl
  qname_loop-PointsToItself (suc fuel) w e f =
      let h = p.pointer in
      let again : leb 64 p.high ≡ true = ground arith in
      let nonzero : (p.high == 0) ≡ false = ground arith in
      rw (f, again, nonzero, e, p.second, p.target, p.first)
        (qname_loop-PointsToItself fuel _ refl refl)

  -- A name that begins with a pointer to itself keeps `get_qname` in its loop: it does not end within any
  -- number of rounds.
  pub get_qname-PointsToItself :
      (fuel : ℕ) → get_qname fuel memory datalen ptr name_buffer ≡ out_of_fuel
  unfolding get_qname
  get_qname-PointsToItself fuel =
      let w : Walk = record {
        c = false;
        noff = 0;
        ptr = ptr;
        off = ptr;
        len = p.high;
        qname = overwrite name_buffer 0 (0 ∷ []);
      } in
      rw (p.first, qname_loop-PointsToItself fuel w refl refl) refl
