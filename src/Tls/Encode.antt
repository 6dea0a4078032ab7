-- ===== src/Tls/Encode.antt =====
-- Client hellos as bytes, for `parse_tls_header` of app/src/main/cpp/tls.c.
use mobile_injection.Base.{ℕ, ◌+◌, ◌*◌, ◌≡◌, ◌≢◌, ◌≤◌, ◌<◌, List, ◌∷◌, ◌++◌, All, length}
use mobile_injection.Tls.Name.{Extension, IsOther, encode_extensions, name_extension}

-- A client hello in one TLS record: the fields that the parser skips or reads, extensions before the
-- server name, the name, and the bytes of what follows it.
pub record Hello : Type 0 where
  pub minor : ℕ
  pub record_high : ℕ
  pub record_low : ℕ
  -- the length of the handshake message, and the version again
  pub h1 : ℕ
  pub h2 : ℕ
  pub h3 : ℕ
  pub v1 : ℕ
  pub v2 : ℕ
  pub random : List ℕ
  pub session : List ℕ
  pub ciphers_high : ℕ
  pub ciphers_low : ℕ
  pub ciphers : List ℕ
  pub compressions : List ℕ
  pub all_high : ℕ
  pub all_low : ℕ
  pub before : List Extension
  pub ext_high : ℕ
  pub ext_low : ℕ
  pub list_high : ℕ
  pub list_low : ℕ
  pub name_high : ℕ
  pub name_low : ℕ
  pub name : List ℕ
  pub after : List ℕ

abbrev pub encode_head : Hello → List ℕ
encode_head m =
    22 ∷ 3 ∷ m.minor ∷ m.record_high ∷ m.record_low ∷ 1 ∷ m.h1 ∷ m.h2 ∷ m.h3 ∷ m.v1 ∷ m.v2
    ∷ m.random

abbrev pub encode_all : Hello → List ℕ
encode_all m =
    encode_extensions m.before
    ++ name_extension m.ext_high m.ext_low m.list_high m.list_low m.name_high m.name_low m.name
        m.after

abbrev pub from_compressions : Hello → List ℕ
from_compressions m =
    (length m.compressions ∷ m.compressions) ++ (m.all_high ∷ m.all_low ∷ encode_all m)

abbrev pub from_ciphers : Hello → List ℕ
from_ciphers m = (m.ciphers_high ∷ m.ciphers_low ∷ m.ciphers) ++ from_compressions m

abbrev pub encode_hello : Hello → List ℕ
encode_hello m = encode_head m ++ ((length m.session ∷ m.session) ++ from_ciphers m)

-- The lengths in the message are those of its parts, up to the end of the memory, and the name is a
-- host name of 1 to 255 characters without a NUL.
pub record IsHello (m : Hello) : Type 0 where
  pub random_size : length m.random ≡ 32
  pub record_size : m.record_high * 256 + m.record_low + 5 ≡ length (encode_hello m)
  pub ciphers_size : m.ciphers_high * 256 + m.ciphers_low ≡ length m.ciphers
  pub all_size : m.all_high * 256 + m.all_low ≡ length (encode_all m)
  pub others : All IsOther m.before
  pub ext_size : m.ext_high * 256 + m.ext_low ≡ 5 + length m.name
  pub name_size : m.name_high * 256 + m.name_low ≡ length m.name
  pub some_name : 0 < length m.name
  pub fits : length m.name ≤ 255
  pub no_nul : All (λ c. c ≢ 0) m.name
