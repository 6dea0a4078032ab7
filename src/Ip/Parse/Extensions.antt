-- ===== src/Ip/Parse/Extensions.antt =====
-- The extension headers of IPv6 (app/src/main/cpp/ip.c).
use mobile_injection.Base.{
  ℕ, zero, suc, ◌+◌, ◌*◌, ◌<◌, ◌≡◌, refl, arith, true, false, List, length, u16, IsBytes,
  Bool-cases, inl, inr,
}
use mobile_injection.Base.Run.{
  read, Settles, Settles->>=, Settles-if, read-Settles, read_byte-Settles,
}
use mobile_injection.Ip.Parse.{is_lower_layer, is_upper_layer, extension_loop, skip_extensions}

lower_not_upper : (p : ℕ) → is_lower_layer p ≡ true → is_upper_layer p ≡ false
unfolding is_lower_layer is_upper_layer
lower_not_upper p h = ground arith

-- The loop ends within its rounds, with the protocol outside the upper layers.
extension_loop-not_upper :
    (fuel : ℕ) (memory : List ℕ) (off protocol : ℕ)
    → is_upper_layer protocol ≡ false
    → IsBytes memory
    → length memory < 65_000
    → length memory < off + 8 * fuel
    → Settles
        (λ (r : ℕ × ℕ). is_upper_layer r.0 ≡ false)
        (extension_loop (suc fuel) memory off protocol)
unfolding extension_loop
extension_loop-not_upper zero memory off protocol h b small enough =
    Settles->>= _ _ (read memory off) _ (read-Settles memory off)
      (λ nxt inside. absurd (omega arith))
extension_loop-not_upper (suc fuel) memory off protocol h b small enough =
    Settles->>= _ _ (read memory off) _ (read-Settles memory off) (λ nxt inside.
      elim (Bool-cases (is_lower_layer nxt)) [
        | inl lower ↦
            rw (lower, h)
              (Settles->>= _ _ (read memory (off + 1)) _ (read_byte-Settles memory (off + 1) b)
                (λ len k.
                  extension_loop-not_upper fuel memory (u16 (off + (8 + len))) nxt
                    (lower_not_upper nxt lower) b small (omega arith)))
        | inr other ↦ rw other h
      ])

-- In a memory of bytes that is shorter than 65,000 and with one round for each eight of them, the walk over
-- the extension headers does not run for ever; and if it leaves no byte outside the memory, it gives the
-- next header of the IPv6 header itself and the offset 0: no extension header is ever skipped.
pub skip_extensions-none :
    (fuel : ℕ) (memory : List ℕ) (nxt : ℕ)
    → IsBytes memory
    → length memory < 65_000
    → length memory < 8 * fuel
    → Settles (λ (r : ℕ × ℕ). r ≡ (nxt, 0)) (skip_extensions (suc fuel) memory nxt)
unfolding skip_extensions
skip_extensions-none fuel memory nxt b small enough =
    Settles-if _ (is_upper_layer nxt) _ _ (λ upper. refl)
      (λ lower.
        Settles->>= _ _ (extension_loop (suc fuel) memory 40 nxt) _
          (extension_loop-not_upper fuel memory 40 nxt lower b small (omega arith))
          (λ a h. rw h refl))
