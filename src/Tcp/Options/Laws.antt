-- ===== src/Tcp/Options/Laws.antt =====
-- TCP options as bytes, for the options loop of `handle_tcp` (app/src/main/cpp/tcp.c).
use mathlib.Core.List.{append_assoc}
use mobile_injection.Base.{
  ℕ, zero, suc, ◌+◌, ◌*◌, ◌<◌, ◌≡◌, refl, arith, true, false, ◌&&◌, List, [], ◌∷◌, ◌++◌, drop,
  length, ltb, ◌⊎◌, ◌==◌, ap, if◌then◌else◌, length-append, drop-length-append, lt→ltb, inl, inr,
  Bool-cases, ◌-◌, ◌∙◌,
}
use mobile_injection.Base.Run.{ok, out_of_fuel, read, read-lt}
use mobile_injection.Tcp.Options.{Options, set_option, options_loop}

-- The options of RFC 793 and RFC 1323 that the code knows, and any other with its data.
pub data TcpOption : Type 0 where
  no_operation : TcpOption
  maximum_segment_size : (high low : ℕ) → TcpOption
  window_scale : ℕ → TcpOption
  other : (kind : ℕ) (read_bytes : List ℕ) → TcpOption

unfoldable pub encode_option : TcpOption → List ℕ
encode_option TcpOption.no_operation = 1 ∷ []
encode_option (TcpOption.maximum_segment_size high low) = 2 ∷ 4 ∷ high ∷ low ∷ []
encode_option (TcpOption.window_scale ws) = 3 ∷ 3 ∷ ws ∷ []
encode_option (TcpOption.other kind bytes) = kind ∷ suc (suc (length bytes)) ∷ bytes

unfoldable pub encode_options : List TcpOption → List ℕ
encode_options [] = []
encode_options (x ∷ xs) = encode_option x ++ encode_options xs

-- The kinds of `other`: none that has a meaning of its own.
abbrev pub IsOther : TcpOption → Type 0
IsOther (TcpOption.other kind bytes) = 3 < kind
IsOther x = Unit

abbrev pub AllOther : List TcpOption → Type 0
AllOther [] = Unit
AllOther (x ∷ xs) = IsOther x × AllOther xs

unfoldable pub apply_options : Options → List TcpOption → Options
apply_options o [] = o
apply_options o (TcpOption.no_operation ∷ xs) = apply_options o xs
apply_options o (TcpOption.maximum_segment_size high low ∷ xs) =
    apply_options (record o { mss = high * 256 + low }) xs
apply_options o (TcpOption.window_scale ws ∷ xs) = apply_options (record o { ws = ws }) xs
apply_options o (TcpOption.other kind bytes ∷ xs) = apply_options o xs

-- A round that goes on: the option sets `o1`, and `left` bytes of options are to be read from `rest`.
options_loop-round :
    (fuel : ℕ) (kind len k : ℕ) (mem rest : List ℕ) (optlen left : ℕ) (o o1 : Options)
    → read mem 0 ≡ ok kind
    → read mem 1 ≡ ok len
    → set_option mem kind len o ≡ ok o1
    → 0 < kind
    → (if kind == 1 then 1 else len) ≡ k
    → 0 < k
    → drop k mem ≡ rest
    → k + left ≡ optlen
    → options_loop (suc fuel) mem optlen o ≡ options_loop fuel rest left o1
unfolding options_loop
options_loop-round fuel kind len k mem rest optlen left o o1 first second sets nonzero skips goes
      dropped whole =
    let no_end : (kind == 0) ≡ false = ground arith in
    let some : ltb 0 optlen ≡ true = lt→ltb 0 optlen (omega arith) in
    elim (Bool-cases (kind == 1)) [
      | inl e ↦
          let one : 1 ≡ k = rw e at skips in
          let next : drop 1 mem ≡ rest = rw (← one) at dropped in
          let less : optlen - 1 ≡ left = omega arith in
          rw (some, first, second, sets, no_end, e, next, less)
      | inr e ↦
          let whole_option : len ≡ k = rw e at skips in
          let next : drop len mem ≡ rest = rw (← whole_option) at dropped in
          let less : optlen - len ≡ left = omega arith in
          rw (some, first, second, sets, no_end, e, next, less)
    ]

-- Options that are encoded one after the other, those without a meaning of a kind above 3, with `pad`
-- bytes of padding that begin with the end of the options, and with at least two more bytes of memory
-- behind them, are decoded by the loop: it ends within one round for each option and one more, and the
-- last maximum segment size and the last window scale are the result.
pub options_loop-encode_options :
    (xs : List TcpOption) (b c : ℕ) (tail : List ℕ) (pad : ℕ) (o : Options)
    → AllOther xs
    → (pad ≡ 0) ⊎ (b ≡ 0)
    → options_loop
        (suc (length xs))
        (encode_options xs ++ (b ∷ c ∷ tail))
        (length (encode_options xs) + pad)
        o
      ≡ ok (apply_options o xs)
unfolding options_loop encode_options encode_option apply_options set_option
options_loop-encode_options [] b c tail pad o h (inl none) = rw none
options_loop-encode_options [] b c tail pad o h (inr ends) = elim (Bool-cases (ltb 0 (0 + pad))) [
  | inl more ↦ rw (more, ends)
  | inr over ↦ rw over
]
options_loop-encode_options (TcpOption.no_operation ∷ xs) b c tail pad o (h, hs) k =
    let rest = encode_options xs in
    let after = rest ++ (b ∷ c ∷ tail) in
    let (len, second) = read-lt after 0 (omega (arith, length-append rest (b ∷ c ∷ tail))) in
    options_loop-round (suc (length xs)) 1 len 1 (1 ∷ after) after (suc (length rest) + pad)
      (length rest + pad) o o refl second refl (omega arith) refl (omega arith) refl (omega arith)
    ∙ options_loop-encode_options xs b c tail pad o hs k
options_loop-encode_options (TcpOption.maximum_segment_size high low ∷ xs) b c tail pad o (h, hs)
      k =
    let rest = encode_options xs in
    let after = rest ++ (b ∷ c ∷ tail) in
    options_loop-round (suc (length xs)) 2 4 4 (2 ∷ 4 ∷ high ∷ low ∷ after) after
      (suc (suc (suc (suc (length rest)))) + pad) (length rest + pad) o
      (record o { mss = high * 256 + low }) refl refl refl (omega arith) refl (omega arith) refl
      (omega arith)
    ∙ options_loop-encode_options xs b c tail pad (record o { mss = high * 256 + low }) hs k
options_loop-encode_options (TcpOption.window_scale ws ∷ xs) b c tail pad o (h, hs) k =
    let rest = encode_options xs in
    let after = rest ++ (b ∷ c ∷ tail) in
    options_loop-round (suc (length xs)) 3 3 3 (3 ∷ 3 ∷ ws ∷ after) after
      (suc (suc (suc (length rest))) + pad) (length rest + pad) o (record o { ws = ws }) refl refl
      refl (omega arith) refl (omega arith) refl (omega arith)
    ∙ options_loop-encode_options xs b c tail pad (record o { ws = ws }) hs k
options_loop-encode_options (TcpOption.other kind bytes ∷ xs) b c tail pad o (h, hs) k =
    let not1 : (kind == 1) ≡ false = ground arith in
    let not2 : (kind == 2) ≡ false = ground arith in
    let not3 : (kind == 3) ≡ false = ground arith in
    let rest = encode_options xs in
    let after = rest ++ (b ∷ c ∷ tail) in
    let len = suc (suc (length bytes)) in
    let mem = kind ∷ len ∷ ((bytes ++ rest) ++ (b ∷ c ∷ tail)) in
    let dropped : drop len mem ≡ after =
      ap (drop (length bytes)) (append_assoc bytes rest (b ∷ c ∷ tail))
      ∙ drop-length-append bytes after in
    let set : set_option mem kind len o ≡ ok o = rw (not2, not3) in
    options_loop-round (suc (length xs)) kind len len mem after
      (suc (suc (length (bytes ++ rest))) + pad) (length rest + pad) o o refl refl set (omega arith)
      (rw not1) (omega arith) dropped (omega (arith, length-append bytes rest))
    ∙ options_loop-encode_options xs b c tail pad o hs k

-- An option of length 0 that is neither the end of the options nor a no-operation, and sets nothing, is
-- looked at again and again: the loop does not end within any number of rounds.
pub options_loop-length_zero :
    (fuel kind : ℕ) (tail : List ℕ) (optlen : ℕ) (o : Options)
    → 1 < kind
    → 0 < optlen
    → options_loop fuel (kind ∷ 0 ∷ tail) optlen o ≡ out_of_fuel
unfolding options_loop set_option
options_loop-length_zero zero kind tail optlen o h k = refl
options_loop-length_zero (suc fuel) kind tail optlen o h k =
    let no_end : (kind == 0) ≡ false = ground arith in
    let no_pad : (kind == 1) ≡ false = ground arith in
    let no_size : (kind == 2 && 0 == 4) ≡ false = ground arith in
    let no_scale : (kind == 3 && 0 == 3) ≡ false = ground arith in
    let some : ltb 0 optlen ≡ true = lt→ltb 0 optlen k in
    let again : options_loop fuel (kind ∷ 0 ∷ tail) (optlen - 0) o ≡ out_of_fuel =
      options_loop-length_zero fuel kind tail (optlen - 0) o h (omega arith) in
    rw (some, no_size, no_scale, no_end, no_pad, again)
