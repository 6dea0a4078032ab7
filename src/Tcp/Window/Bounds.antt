-- ===== src/Tcp/Window/Bounds.antt =====
-- The bounds of the window of `get_receive_window` (app/src/main/cpp/tcp.c).
use native.Mathlib.Nat.{one-le-pow}
use mobile_injection.Base.{ℕ, ◌+◌, ◌-◌, ◌*◌, ◌/◌, ◌^◌, ◌<◌, ◌≤◌, ◌≡◌, arith, ◌⊎◌, u32}
use mobile_injection.Tcp.Window.{window_of}

div_le : (p x : ℕ) → 0 < p → x ≤ 0xffff * p → x / p ≤ 0xffff
div_le p x h k = grind arith

-- Whatever the scale: the window shifted down by the scale fits the 16 bits of the header, and a
-- window that is not 0 fits, together with the bytes that wait to be forwarded, in the buffer.
pub window_of_bounds :
    (buffer forward scale : ℕ)
    → let w = window_of buffer forward scale in
      (w / 2 ^ scale ≤ 0xffff) × ((w ≡ 0) ⊎ (w + forward ≤ buffer))
unfolding window_of
window_of_bounds buffer forward scale =
    let p = 2 ^ scale in
    let positive : 0 < 2 ^ scale = one-le-pow scale 2 (omega arith) in
    (
      ground (
        arith,
        positive,
        div_le p (u32 (0xffff * p)) positive,
        div_le p 0 positive,
        div_le p (u32 (0xffff * p) - forward) positive,
        div_le p (buffer - forward) positive,
      ),
      ground arith,
    )
