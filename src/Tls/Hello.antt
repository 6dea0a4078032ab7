-- ===== src/Tls/Hello.antt =====
-- Client hellos as bytes, for `parse_tls_header` of app/src/main/cpp/tls.c.
use mathlib.Core.List.{append_assoc}
use mobile_injection.Base.{
  ℕ, ◌+◌, ◌*◌, ◌≡◌, ◌≤◌, refl, ap, ◌∙◌, arith, Bool, false, ◌&&◌, ltb, ◌==◌, List, [], ◌∷◌, ◌++◌,
  drop, min, length, length-append, le→ltb,
}
use mobile_injection.Base.Run.{ok, read}
use mobile_injection.Tls.{
  be16_at, parse_extensions, hello_extensions, hello_compression, hello_ciphers, hello_session,
  parse_tls_header,
}
use mobile_injection.Tls.Name.{
  Extension, encode_extensions, name_extension, extensions_loop-name, read-drop, drop-behind,
}
use mobile_injection.Tls.Encode.{
  Hello, encode_head, encode_all, from_compressions, from_ciphers, encode_hello, IsHello,
}

length-encode_extensions : (es : List Extension) → length es ≤ length (encode_extensions es)
unfolding encode_extensions
length-encode_extensions [] = omega arith
length-encode_extensions (e ∷ es) =
    omega (arith, length-encode_extensions es, length-append e.content (encode_extensions es))

be16-drop :
    (pos a b : ℕ) (mem rest : List ℕ)
    → drop pos mem ≡ a ∷ b ∷ rest
    → be16_at mem pos ≡ ok (a * 256 + b)
be16-drop pos a b mem rest e =
    let r0 : read mem pos ≡ ok a = read-drop pos 0 pos mem _ e (omega arith) in
    let r1 : read mem (pos + 1) ≡ ok b = read-drop pos 1 (pos + 1) mem _ e refl in rw (r0, r1)

drop-behind_tail :
    (p n j : ℕ) (mem xs ys zs : List ℕ)
    → drop p mem ≡ (xs ++ ys) ++ zs
    → n ≡ length xs
    → p + n ≡ j
    → drop j mem ≡ ys ++ zs
drop-behind_tail p n j mem xs ys zs e f g =
    drop-behind p n j mem xs (ys ++ zs) (e ∙ append_assoc xs ys zs) f g

module _ (m : Hello) (h : IsHello m) (hostname tail : List ℕ) where
  abbrev size : ℕ
  size =
      43
      + ((1 + length m.session)
          + ((2 + length m.ciphers) + ((1 + length m.compressions) + (2 + length (encode_all m)))))

  encode_hello-size : length (encode_hello m) ≡ size
  encode_hello-size = omega (
    arith,
    h.random_size,
    length-append (encode_head m) ((length m.session ∷ m.session) ++ from_ciphers m),
    length-append (length m.session ∷ m.session) (from_ciphers m),
    length-append (m.ciphers_high ∷ m.ciphers_low ∷ m.ciphers) (from_compressions m),
    length-append (length m.compressions ∷ m.compressions) (m.all_high ∷ m.all_low ∷ encode_all m),
  )

  parse_extensions-name :
      (mem : List ℕ)
      → mem ≡ encode_all m ++ tail
      → parse_extensions mem (length (encode_all m)) hostname ≡ ok m.name
  unfolding parse_extensions
  parse_extensions-name mem e =
      let name =
        name_extension m.ext_high m.ext_low m.list_high m.list_low m.name_high m.name_low m.name
          m.after in
      let exts = encode_extensions m.before in
      let fields : List ℕ → List ℕ = λ t.
        exts
        ++ (0 ∷ 0 ∷ m.ext_high ∷ m.ext_low ∷ m.list_high ∷ m.list_low ∷ 0 ∷ m.name_high ∷ m.name_low
            ∷ t) in
      let whole : mem ≡ fields (m.name ++ (m.after ++ tail)) =
        e ∙ (append_assoc exts name tail ∙ ap fields (append_assoc m.name m.after tail)) in
      extensions_loop-name m.ext_high m.ext_low m.list_high m.list_low m.name_high m.name_low m.name
        (m.after ++ tail) hostname h.ext_size h.name_size h.some_name h.fits h.no_nul m.before
        (length (encode_all m) + 1) 0 mem (length (encode_all m)) h.others
        (omega (
          arith,
          length-encode_extensions m.before,
          length-append (encode_extensions m.before) name,
        ))
        whole
        (omega
          (arith, length-append (encode_extensions m.before) name, length-append m.name m.after))

  hello_extensions-name :
      (mem : List ℕ) (pos n : ℕ)
      → drop pos mem ≡ (m.all_high ∷ m.all_low ∷ encode_all m) ++ tail
      → n ≡ pos + (2 + length (encode_all m))
      → hello_extensions mem n pos hostname ≡ ok m.name
  unfolding hello_extensions
  hello_extensions-name mem pos n e whole =
      let len = be16-drop pos m.all_high m.all_low mem _ e in
      let behind : drop (pos + 2) mem ≡ encode_all m ++ tail =
        drop-behind_tail pos 2 (pos + 2) mem (m.all_high ∷ m.all_low ∷ []) _ tail e refl refl in
      let inside : ltb n (pos + 2) ≡ false = le→ltb n (pos + 2) (omega arith) in
      let fits : ltb n (pos + 2 + length (encode_all m)) ≡ false =
        le→ltb n (pos + 2 + length (encode_all m)) (omega arith) in
      rw (inside, len, h.all_size, fits, parse_extensions-name _ behind)

  hello_compression-name :
      (mem : List ℕ) (pos n : ℕ)
      → drop pos mem ≡ from_compressions m ++ tail
      → n ≡ pos + (1 + length m.compressions + (2 + length (encode_all m)))
      → hello_compression 3 m.minor mem n pos hostname ≡ ok m.name
  unfolding hello_compression
  hello_compression-name mem pos n e whole =
      let next = pos + (1 + length m.compressions) in
      let len : read mem pos ≡ ok (length m.compressions) =
        read-drop pos 0 pos mem _ e (omega arith) in
      let behind : drop next mem ≡ (m.all_high ∷ m.all_low ∷ encode_all m) ++ tail =
        drop-behind_tail pos (1 + length m.compressions) next mem
          (length m.compressions ∷ m.compressions) _ tail e (omega arith) refl in
      let inside : ltb n (pos + 1) ≡ false = le→ltb n (pos + 1) (omega arith) in
      let goes_on : (next == n) ≡ false = ground arith in
      rw (inside, len, goes_on, hello_extensions-name mem next n behind (omega arith))

  hello_ciphers-name :
      (mem : List ℕ) (pos n : ℕ)
      → drop pos mem ≡ from_ciphers m ++ tail
      → n ≡ pos + (2 + length m.ciphers + (1 + length m.compressions + (2 + length (encode_all m))))
      → hello_ciphers 3 m.minor mem n pos hostname ≡ ok m.name
  unfolding hello_ciphers
  hello_ciphers-name mem pos n e whole =
      let next = pos + (2 + length m.ciphers) in
      let len = be16-drop pos m.ciphers_high m.ciphers_low mem _ e in
      let behind : drop next mem ≡ from_compressions m ++ tail =
        drop-behind_tail pos (2 + length m.ciphers) next mem
          (m.ciphers_high ∷ m.ciphers_low ∷ m.ciphers) _ tail e (omega arith) refl in
      let inside : ltb n (pos + 2) ≡ false = le→ltb n (pos + 2) (omega arith) in
      rw (inside, len, h.ciphers_size, hello_compression-name mem next n behind (omega arith))

  hello_session-name :
      (mem : List ℕ)
      → mem ≡ encode_hello m ++ tail
      → read mem 5 ≡ ok 1
      → hello_session 3 m.minor mem (length (encode_hello m)) hostname ≡ ok m.name
  unfolding hello_session
  hello_session-name mem e type =
      let n = length (encode_hello m) in
      let whole = encode_hello-size in
      let next = 43 + (1 + length m.session) in
      let random : 43 ≡ length (encode_head m) = omega (arith, h.random_size) in
      let at_session : drop 43 mem ≡ ((length m.session ∷ m.session) ++ from_ciphers m) ++ tail =
        drop-behind_tail 0 43 43 mem (encode_head m) _ tail e random refl in
      let len : read mem 43 ≡ ok (length m.session) = read-drop 43 0 43 mem _ at_session refl in
      let at_ciphers : drop next mem ≡ from_ciphers m ++ tail =
        drop-behind_tail 43 (1 + length m.session) next mem (length m.session ∷ m.session) _ tail
          at_session (omega arith) refl in
      let six : ltb n 6 ≡ false = le→ltb n 6 (omega (arith, whole)) in
      let inside : ltb n 44 ≡ false = le→ltb n 44 (omega (arith, whole)) in
      rw (six, type, inside, len, hello_ciphers-name mem next n at_ciphers (omega (arith, whole)))

  -- A client hello in one TLS record, with a version 3.x, that carries other extensions, then a server
  -- name of 1 to 255 characters without a NUL, and then anything, is parsed to that name, whatever the host
  -- name was before, what follows the record in memory, and whether char is signed.
  pub parse_tls_header-encode_hello :
      (signed_char : Bool) (data_len : ℕ)
      → length (encode_hello m) ≤ data_len
      → parse_tls_header signed_char (encode_hello m ++ tail) data_len hostname ≡ ok m.name
  unfolding parse_tls_header
  parse_tls_header-encode_hello signed_char data_len enough =
      let n = length (encode_hello m) in
      let whole = encode_hello-size in
      let five : ltb data_len 5 ≡ false = le→ltb data_len 5 (omega (arith, whole)) in
      let least : min data_len n ≡ n = omega arith in
      let full : ltb n n ≡ false = le→ltb n n (omega arith) in
      let old : (signed_char && false) ≡ false = ground arith in
      rw (
        five,
        h.record_size,
        least,
        full,
        old,
        hello_session-name (encode_hello m ++ tail) refl refl,
      )
