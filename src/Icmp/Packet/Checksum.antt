-- ===== src/Icmp/Packet/Checksum.antt =====
-- The checksum and the identifier of the echo messages (app/src/main/cpp/icmp.c).
use mobile_injection.Base.{
  ℕ, suc, ◌+◌, ◌-◌, ◌*◌, ◌/◌, ◌%◌, ◌^◌, ◌<◌, ◌≤◌, ◌≡◌, refl, ◌∙◌, ap, arith, List, ◌∷◌, ◌++◌,
  length, length-take, take, IsBytes, IsBytes-take, not16, le16,
}
use mobile_injection.Base.Run.{ok, read_bytes}
use mathlib.Core.Path.{subst}
use mobile_injection.Util.Checksum.{calc_checksum}
use mobile_injection.Util.Checksum.Laws.{
  word_sum, word_sum-le, ones_complement, calc_checksum-eq-ones_complement,
  not16-ones_complement-lt,
}
use mobile_injection.Util.Checksum.Pieces.{complement_checks}
use mobile_injection.Net.Decode.{read16}
use mobile_injection.Icmp.Packet.{set_echo}

-- An echo message that the code has written.
pub record IsRestored (id n : ℕ) (memory : List ℕ) : Type 0 where
  pub out : List ℕ
  pub returns : set_echo 0 id n memory ≡ ok out
  pub verifies : calc_checksum 0 (take n out) ≡ 0xffff
  pub identifier : read16 out 4 ≡ ok id
  pub size : length out ≡ length memory

-- The message with a check field of 0.
abbrev blank : (type code id : ℕ) (rest : List ℕ) → List ℕ
blank type code id rest = type ∷ code ∷ 0 ∷ 0 ∷ (id / 256 % 256) ∷ (id % 256) ∷ rest

header-IsRestored :
    (id m type code c0 c1 i0 i1 : ℕ) (rest : List ℕ)
    → IsBytes rest
    → type < 256
    → code < 256
    → id < 2 ^ 16
    → m ≤ length rest
    → m < 65_530
    → IsRestored id (suc (suc (suc (suc (suc (suc m)))))) (type ∷ code ∷ c0 ∷ c1 ∷ i0 ∷ i1 ∷ rest)
unfolding set_echo read_bytes word_sum
header-IsRestored id m type code c0 c1 i0 i1 rest b t_small c_small i_small inside small = record {
  out = type ∷ code ∷ (le16 c ++ ((id / 256 % 256) ∷ (id % 256) ∷ rest));
  returns = ground arith;
  verifies = complement_checks t _ (omega (arith, sum_small)) (omega (arith, c_eq, c_lt));
  identifier = ap ok (omega arith);
  size = refl;
}
  where
    t : ℕ
    t = word_sum (blank type code id (take m rest))

    sum_small : 2 * t ≤ 0xffff * 65_536 + 0xffff
    sum_small = omega (
      arith,
      word_sum-le (blank type code id (take m rest)) (
        t_small,
        (
          c_small,
          (omega arith, (omega arith, (omega arith, (omega arith, IsBytes-take m rest b)))),
        ),
      ),
      length-take m rest,
    )

    c : ℕ
    c = not16 (calc_checksum 0 (blank type code id (take m rest)))

    c_eq : c ≡ not16 (ones_complement t)
    c_eq = ap not16 (
        calc_checksum-eq-ones_complement 0 _ (omega (arith, sum_small))
        ∙ ap ones_complement (omega arith))

    c_lt : not16 (ones_complement t) < 2 ^ 16
    c_lt = not16-ones_complement-lt t

-- For a message of 6 to 65,535 bytes that lies in the memory, with the identifier a 16-bit number:
-- the code returns the message with that identifier, of the same size, and with a checksum that
-- verifies when no pseudo header goes before it, as in IPv4.
pub set_echo-IsRestored :
    (id n type code c0 c1 i0 i1 : ℕ) (rest : List ℕ)
    → IsBytes (type ∷ code ∷ c0 ∷ c1 ∷ i0 ∷ i1 ∷ rest)
    → id < 2 ^ 16
    → 6 ≤ n
    → n ≤ 6 + length rest
    → n < 2 ^ 16
    → IsRestored id n (type ∷ code ∷ c0 ∷ c1 ∷ i0 ∷ i1 ∷ rest)
set_echo-IsRestored id n type code c0 c1 i0 i1 rest (t, (k, (a, (b, (c, (d, bs)))))) i low inside
      small =
    let e : suc (suc (suc (suc (suc (suc (n - 6)))))) ≡ n = omega arith in
    subst (λ k. IsRestored id k (type ∷ code ∷ c0 ∷ c1 ∷ i0 ∷ i1 ∷ rest)) e
      (header-IsRestored id (n - 6) type code c0 c1 i0 i1 rest bs t k i (omega arith) (omega arith))
