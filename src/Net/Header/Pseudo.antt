-- ===== src/Net/Header/Pseudo.antt =====
-- The addresses of packets, and the pseudo headers that their checksums begin with (the packet
-- builders of app/src/main/cpp/tcp.c and udp.c).
use mobile_injection.Base.{
  ℕ, ◌%◌, ◌<◌, ◌≤◌, ◌==◌, ◌≡◌, ◌∙◌, arith, List, [], ◌∷◌, ◌++◌, length, length-append,
  if◌then◌else◌, IsBytes, All-append, be16, be32, ◌^◌, refl, Bool-cases, inl, inr,
}
use mobile_injection.Util.Checksum.Laws.{word_sum, word_sum-append}
use mobile_injection.Net.Header.{pseudo_header}

-- An address of the family of an IP version.
pub record IsAddress (version : ℕ) (addr : List ℕ) : Type 0 where
  pub size : length addr ≡ (if version == 4 then 4 else 16)
  pub bytes : IsBytes addr

pub pseudo_header_facts :
    (version protocol len : ℕ) (saddr daddr : List ℕ)
    → IsAddress version saddr
    → IsAddress version daddr
    → protocol < 256
    → (length (pseudo_header version saddr daddr protocol len) % 2 ≡ 0)
      × (length (pseudo_header version saddr daddr protocol len) ≤ 40)
      × IsBytes (pseudo_header version saddr daddr protocol len)
pseudo_header_facts version protocol len saddr daddr ws wd small =
    elim (Bool-cases (version == 4)) [
      | inl v4 ↦
          let s : length saddr ≡ 4 = ws.size ∙ rw v4 in
          let d : length daddr ≡ 4 = wd.size ∙ rw v4 in rw v4 (lengths4 s d, lengths4' s d, bytes4)
      | inr v6 ↦
          let s : length saddr ≡ 16 = ws.size ∙ rw v6 in
          let d : length daddr ≡ 16 = wd.size ∙ rw v6 in rw v6 (lengths6 s d, lengths6' s d, bytes6)
    ]
  where
    tail4 : List ℕ
    tail4 = 0 ∷ protocol ∷ be16 len

    tail6 : List ℕ
    tail6 = be16 len ++ (0 ∷ 0 ∷ 0 ∷ 0 ∷ 0 ∷ protocol ∷ [])

    lengths4 : length saddr ≡ 4 → length daddr ≡ 4 → length (daddr ++ (saddr ++ tail4)) % 2 ≡ 0
    lengths4 s d = omega (arith, length-append daddr (saddr ++ tail4), length-append saddr tail4)

    lengths4' : length saddr ≡ 4 → length daddr ≡ 4 → length (daddr ++ (saddr ++ tail4)) ≤ 40
    lengths4' s d = omega (arith, length-append daddr (saddr ++ tail4), length-append saddr tail4)

    lengths6 : length saddr ≡ 16 → length daddr ≡ 16 → length (saddr ++ (daddr ++ tail6)) % 2 ≡ 0
    lengths6 s d = omega (arith, length-append saddr (daddr ++ tail6), length-append daddr tail6)

    lengths6' : length saddr ≡ 16 → length daddr ≡ 16 → length (saddr ++ (daddr ++ tail6)) ≤ 40
    lengths6' s d = omega (arith, length-append saddr (daddr ++ tail6), length-append daddr tail6)

    bytes4 : IsBytes (daddr ++ (saddr ++ tail4))
    bytes4 = All-append _ daddr _ wd.bytes (All-append _ saddr _ ws.bytes (omega arith))

    bytes6 : IsBytes (saddr ++ (daddr ++ tail6))
    bytes6 = All-append _ saddr _ ws.bytes (All-append _ daddr _ wd.bytes (omega arith))

-- The pseudo header that a receiver puts in front of a segment of `len` bytes, by RFC 793 and RFC 8200: the
-- source and the destination of the packet, the protocol and the length.
abbrev pub receiver_pseudo : (version : ℕ) (source dest : List ℕ) (protocol len : ℕ) → List ℕ
receiver_pseudo version source dest protocol len =
    if version == 4
    then source ++ (dest ++ (0 ∷ protocol ∷ be16 len))
    else source ++ (dest ++ (be32 len ++ (0 ∷ 0 ∷ 0 ∷ protocol ∷ [])))

-- It has the same sum as that of the packet builders.
pub receiver_pseudo_facts :
    (version protocol len : ℕ) (saddr daddr : List ℕ)
    → IsAddress version saddr
    → IsAddress version daddr
    → len < 2 ^ 16
    → (length (receiver_pseudo version daddr saddr protocol len) % 2 ≡ 0)
      × (word_sum (receiver_pseudo version daddr saddr protocol len)
          ≡ word_sum (pseudo_header version saddr daddr protocol len))
unfolding word_sum
receiver_pseudo_facts version protocol len saddr daddr ws wd small =
    elim (Bool-cases (version == 4)) [
      | inl v4 ↦
          let s : length saddr ≡ 4 = ws.size ∙ rw v4 in
          let d : length daddr ≡ 4 = wd.size ∙ rw v4 in
          rw v4 (
            omega (arith, s, d, length-append daddr (saddr ++ tail4), length-append saddr tail4),
            refl,
          )
      | inr v6 ↦
          let s : length saddr ≡ 16 = ws.size ∙ rw v6 in
          let d : length daddr ≡ 16 = wd.size ∙ rw v6 in
          rw v6 (
            omega (arith, s, d, length-append daddr (saddr ++ tail6), length-append saddr tail6),
            omega (
              arith,
              small,
              word_sum-append daddr (saddr ++ tail6) (omega (arith, d)),
              word_sum-append saddr tail6 (omega (arith, s)),
              word_sum-append saddr (daddr ++ built6) (omega (arith, s)),
              word_sum-append daddr built6 (omega (arith, d)),
            ),
          )
    ]
  where
    tail4 : List ℕ
    tail4 = 0 ∷ protocol ∷ be16 len

    tail6 : List ℕ
    tail6 = be32 len ++ (0 ∷ 0 ∷ 0 ∷ protocol ∷ [])

    built6 : List ℕ
    built6 = be16 len ++ (0 ∷ 0 ∷ 0 ∷ 0 ∷ 0 ∷ protocol ∷ [])
