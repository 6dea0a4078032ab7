-- ===== src/Tls/Bounds.antt =====
-- Which memory `parse_tls_header` (app/src/main/cpp/tls.c) reads, and what it leaves in the buffer.
use mobile_injection.Base.{
  ℕ, zero, suc, ◌+◌, ◌*◌, ◌≤◌, ◌<◌, ◌≡◌, ◌≢◌, refl, arith, ◌⊎◌, inl, inr, Bool, true, false, ◌&&◌,
  ◌||◌, not, ltb, leb, ◌==◌, List, [], ◌∷◌, drop, length, length-drop, All, min, if◌then◌else◌,
  Bool-cases, ltb-false→le, leb→le, ltb→lt,
}
use mobile_injection.Base.Run.{Run, ok, ◌>>=◌, read, read-lt}
use mobile_injection.Tls.{
  be16_at, copy_name, server_name_loop, parse_server_name_extension, extensions_loop,
  parse_extensions, hello_extensions, hello_compression, hello_ciphers, hello_session,
  parse_tls_header,
}

-- A C string of at most 255 characters.
pub record IsName (name : List ℕ) : Type 0 where
  pub fits : length name ≤ 255
  pub no_nul : All (λ c. c ≢ 0) name

-- The run returns: the host name is as it was, or a name was found.
pub record Returns (hostname : List ℕ) (r : Run (List ℕ)) : Type 0 where
  pub name : List ℕ
  pub returns : r ≡ ok name
  pub kept_or_found : (name ≡ hostname) ⊎ IsName name

module _ {hostname : List ℕ} where
  Returns-kept : Returns hostname (ok hostname)
  Returns-kept = record { name = hostname; returns = refl; kept_or_found = inl refl }

  Returns-if :
      (b : Bool) (m n : Run (List ℕ))
      → (b ≡ true → Returns hostname m)
      → (b ≡ false → Returns hostname n)
      → Returns hostname (if b then m else n)
  Returns-if true m n h k = h refl
  Returns-if false m n h k = k refl

  Returns-read :
      (mem : List ℕ) (i : ℕ) (f : ℕ → Run (List ℕ))
      → i < length mem
      → ((x : ℕ) → Returns hostname (f x))
      → Returns hostname (read mem i >>= f)
  Returns-read mem i f h k = let (x, e) = read-lt mem i h in rw e (k x)

  Returns-be16 :
      (mem : List ℕ) (i : ℕ) (f : ℕ → Run (List ℕ))
      → i + 1 < length mem
      → ((x : ℕ) → Returns hostname (f x))
      → Returns hostname (be16_at mem i >>= f)
  Returns-be16 mem i f h k =
      let (a, e) = read-lt mem i (omega arith) in
      let (b, e') = read-lt mem (i + 1) h in rw (e, e') (k (a * 256 + b))

copy_name-IsName :
    (n : ℕ) (mem : List ℕ)
    → n ≤ length mem
    → (name : List ℕ) × (copy_name n mem ≡ ok name) × (length name ≤ n) × All (λ c. c ≢ 0) name
unfolding copy_name
copy_name-IsName zero mem h = ([], refl, omega arith, tt)
copy_name-IsName (suc n) [] h = absurd (omega arith)
copy_name-IsName (suc n) (c ∷ mem) h =
    let (name, e, size, chars) = copy_name-IsName n mem (omega arith) in
    elim (Bool-cases (c == 0)) [
      | inl nul ↦ ([], rw nul, omega arith, tt)
      | inr more ↦ (c ∷ name, rw (more, e), omega arith, (ground arith, chars))
    ]

server_name_loop-Returns :
    (fuel : ℕ) (mem : List ℕ) (data_len pos : ℕ) (hostname : List ℕ)
    → data_len ≤ length mem
    → data_len < pos + fuel
    → 0 < fuel
    → Returns hostname (server_name_loop fuel mem data_len pos hostname)
unfolding server_name_loop
server_name_loop-Returns zero mem data_len pos hostname h k l = absurd (omega arith)
server_name_loop-Returns (suc fuel) mem data_len pos hostname h k l =
    Returns-if (ltb (pos + 3) data_len) _ _
      (λ inside.
        let below = ltb→lt (pos + 3) data_len inside in
        Returns-be16 mem (pos + 1) _ (omega arith) λ len.
          Returns-read mem pos _ (omega arith) λ type.
            Returns-if (ltb data_len (pos + 3 + len)) _ _ (λ _. Returns-kept)
              λ fits.
                Returns-if (type == 0) _ _
                  (λ _. found len (ltb-false→le data_len (pos + 3 + len) fits))
                  (λ _.
                    let within = ltb-false→le data_len (pos + 3 + len) fits in
                    server_name_loop-Returns fuel mem data_len (pos + (3 + len)) hostname h
                      (omega arith) (omega arith)))
      (λ _. Returns-kept)
  where
    found :
        (len : ℕ)
        → pos + 3 + len ≤ data_len
        → Returns hostname (copy_name (min len 255) (drop (pos + 3) mem))
    found len fits =
        let (name, e, size, chars) =
          copy_name-IsName (min len 255) (drop (pos + 3) mem)
            (omega (arith, length-drop (pos + 3) mem)) in
        record {
          name = name;
          returns = e;
          kept_or_found = inr (record { fits = omega arith; no_nul = chars });
        }

extensions_loop-Returns :
    (fuel : ℕ) (mem : List ℕ) (data_len pos : ℕ) (hostname : List ℕ)
    → data_len ≤ length mem
    → data_len < pos + fuel
    → 0 < fuel
    → Returns hostname (extensions_loop fuel mem data_len pos hostname)
unfolding extensions_loop parse_server_name_extension
extensions_loop-Returns zero mem data_len pos hostname h k l = absurd (omega arith)
extensions_loop-Returns (suc fuel) mem data_len pos hostname h k l =
    Returns-if (leb (pos + 4) data_len) _ _
      (λ inside.
        let below = leb→le (pos + 4) data_len inside in
        Returns-be16 mem (pos + 2) _ (omega arith) λ len. Returns-read mem pos _ (omega arith) λ a.
          Returns-read mem (pos + 1) _ (omega arith) λ b.
            Returns-if (a == 0 && b == 0) _ _
              (λ _.
                Returns-if (ltb data_len (pos + 4 + len)) _ _ (λ _. Returns-kept)
                  λ fits.
                    let within = ltb-false→le data_len (pos + 4 + len) fits in
                    server_name_loop-Returns (len + 1) (drop (pos + 4) mem) len 2 hostname
                      (omega (arith, length-drop (pos + 4) mem)) (omega arith) (omega arith))
              (λ _.
                extensions_loop-Returns fuel mem data_len (pos + (4 + len)) hostname h (omega arith)
                  (omega arith)))
      (λ _. Returns-kept)

-- With as many bytes in memory as the caller says, `parse_tls_header` reads none outside them and
-- ends within its rounds; the host name is then as it was, or a C string of at most 255 characters.
pub parse_tls_header-Returns :
    (signed_char : Bool) (mem : List ℕ) (data_len : ℕ) (hostname : List ℕ)
    → data_len ≤ length mem
    → Returns hostname (parse_tls_header signed_char mem data_len hostname)
unfolding parse_tls_header hello_session hello_ciphers hello_compression hello_extensions
    parse_extensions
parse_tls_header-Returns signed_char mem data_len hostname h =
    Returns-if (ltb data_len 5) _ _ (λ _. Returns-kept)
      λ long.
        let five = ltb-false→le data_len 5 long in
        Returns-read mem 0 _ (omega arith) λ type. Returns-read mem 1 _ (omega arith) λ major.
          Returns-read mem 2 _ (omega arith) λ minor.
            Returns-be16 mem 3 _ (omega arith) λ record_len.
              Returns-if _ _ _ (λ _. Returns-kept)
                λ _. hello major minor (min data_len (record_len + 5)) (omega arith)
  where
    extensions :
        (n pos : ℕ) → n ≤ length mem → Returns hostname (hello_extensions mem n pos hostname)
    extensions n pos k =
        Returns-if (ltb n (pos + 2)) _ _ (λ _. Returns-kept)
          λ inside.
            let below = ltb-false→le n (pos + 2) inside in
            Returns-be16 mem pos _ (omega arith) λ len.
              Returns-if (ltb n (pos + 2 + len)) _ _ (λ _. Returns-kept)
                λ fits.
                  let within = ltb-false→le n (pos + 2 + len) fits in
                  extensions_loop-Returns (len + 1) (drop (pos + 2) mem) len 0 hostname
                    (omega (arith, length-drop (pos + 2) mem)) (omega arith) (omega arith)

    compression :
        (major minor n pos : ℕ)
        → n ≤ length mem
        → Returns hostname (hello_compression major minor mem n pos hostname)
    compression major minor n pos k =
        Returns-if (ltb n (pos + 1)) _ _ (λ _. Returns-kept)
          λ inside.
            let below = ltb-false→le n (pos + 1) inside in
            Returns-read mem pos _ (omega arith)
              λ len. Returns-if _ _ _ (λ _. Returns-kept) λ _. extensions n (pos + (1 + len)) k

    ciphers :
        (major minor n pos : ℕ)
        → n ≤ length mem
        → Returns hostname (hello_ciphers major minor mem n pos hostname)
    ciphers major minor n pos k =
        Returns-if (ltb n (pos + 2)) _ _ (λ _. Returns-kept)
          λ inside.
            let below = ltb-false→le n (pos + 2) inside in
            Returns-be16 mem pos _ (omega arith)
              λ len. compression major minor n (pos + (2 + len)) k

    hello :
        (major minor n : ℕ)
        → n ≤ length mem
        → Returns hostname (hello_session major minor mem n hostname)
    hello major minor n k =
        Returns-if (ltb n 6) _ _ (λ _. Returns-kept)
          λ six.
            let below = ltb-false→le n 6 six in
            Returns-read mem 5 _ (omega arith) λ type.
              Returns-if (not (type == 1) || ltb n 44) _ _ (λ _. Returns-kept)
                λ test.
                  let enough : 44 ≤ n = ground arith in
                  Returns-read mem 43 _ (omega arith)
                    λ len. ciphers major minor n (43 + (1 + len)) k
