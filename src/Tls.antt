-- ===== src/Tls.antt =====
-- app/src/main/cpp/tls.c: the server name in a TLS client hello. `mem` is the memory from the data
-- pointer on, `data_len` the length that the caller gives; a read past the memory is a fault. The
-- functions write the name into `hostname`, and return it as it was where they return early.
pub mod Bounds
pub mod Name
pub mod Encode
pub mod Hello
use mobile_injection.Base.{
  ℕ, zero, suc, ◌+◌, ◌*◌, Bool, ◌&&◌, ◌||◌, not, ltb, leb, ◌==◌, List, [], ◌∷◌, drop, min, bit_and,
  if◌then◌else◌,
}
use mobile_injection.Base.Run.{◌>>=◌, Run, ok, fault, out_of_fuel, read}

-- The unsigned 16-bit number at an offset.
abbrev pub be16_at : List ℕ → ℕ → Run ℕ
be16_at mem i = do a ← read mem i; b ← read mem (i + 1); ok (a * 256 + b)

-- strncpy(hostname, mem, n); hostname[n] = 0: the bytes up to a NUL, at most n.
unfoldable pub copy_name : (n : ℕ) (mem : List ℕ) → Run (List ℕ)
copy_name zero mem = ok []
copy_name (suc n) [] = fault
copy_name (suc n) (c ∷ mem) =
    let rest = (do name ← copy_name n mem; ok (c ∷ name)) in if c == 0 then ok [] else rest

-- The loop of parse_server_name_extension. The position grows in every round, so `data_len` rounds
-- are enough.
unfoldable pub server_name_loop :
    (fuel : ℕ) (mem : List ℕ) (data_len pos : ℕ) (hostname : List ℕ) → Run (List ℕ)
unfolding copy_name
server_name_loop zero mem data_len pos hostname = out_of_fuel
server_name_loop (suc fuel) mem data_len pos hostname =
    let round = (do
      len ← be16_at mem (pos + 1)
      type ← read mem pos
      let next = server_name_loop fuel mem data_len (pos + (3 + len)) hostname
      let entry = if type == 0 then copy_name (min len 255) (drop (pos + 3) mem) else next
      if ltb data_len (pos + 3 + len) then ok hostname else entry) in
    if ltb (pos + 3) data_len then round else ok hostname

unfoldable pub parse_server_name_extension :
    (mem : List ℕ) (data_len : ℕ) (hostname : List ℕ) → Run (List ℕ)
unfolding server_name_loop
parse_server_name_extension mem data_len hostname =
    server_name_loop (data_len + 1) mem data_len 2 hostname

-- The loop of parse_extensions.
unfoldable pub extensions_loop :
    (fuel : ℕ) (mem : List ℕ) (data_len pos : ℕ) (hostname : List ℕ) → Run (List ℕ)
extensions_loop zero mem data_len pos hostname = out_of_fuel
extensions_loop (suc fuel) mem data_len pos hostname =
    let round = (do
      len ← be16_at mem (pos + 2)
      a ← read mem pos
      b ← read mem (pos + 1)
      let next = extensions_loop fuel mem data_len (pos + (4 + len)) hostname
      let name =
          if ltb data_len (pos + 4 + len)
          then ok hostname
          else parse_server_name_extension (drop (pos + 4) mem) len hostname
      if a == 0 && b == 0 then name else next) in
    if leb (pos + 4) data_len then round else ok hostname

unfoldable pub parse_extensions : (mem : List ℕ) (data_len : ℕ) (hostname : List ℕ) → Run (List ℕ)
unfolding extensions_loop
parse_extensions mem data_len hostname = extensions_loop (data_len + 1) mem data_len 0 hostname

-- "Extensions", from the position behind the compression methods.
unfoldable pub hello_extensions :
    (mem : List ℕ) (data_len pos : ℕ) (hostname : List ℕ) → Run (List ℕ)
hello_extensions mem data_len pos hostname =
    let inside = (do
      len ← be16_at mem pos
      if ltb data_len (pos + 2 + len)
          then ok hostname
          else parse_extensions (drop (pos + 2) mem) len hostname) in
    if ltb data_len (pos + 2) then ok hostname else inside

-- "Compression Methods", and the end of an SSL 3.0 hello.
unfoldable pub hello_compression :
    (major minor : ℕ) (mem : List ℕ) (data_len pos : ℕ) (hostname : List ℕ) → Run (List ℕ)
unfolding hello_extensions
hello_compression major minor mem data_len pos hostname =
    let inside = (do
      len ← read mem pos
      let pos1 = pos + (1 + len)
      if pos1 == data_len && major == 3 && minor == 0
          then ok hostname
          else hello_extensions mem data_len pos1 hostname) in
    if ltb data_len (pos + 1) then ok hostname else inside

-- "Cipher Suites".
unfoldable pub hello_ciphers :
    (major minor : ℕ) (mem : List ℕ) (data_len pos : ℕ) (hostname : List ℕ) → Run (List ℕ)
unfolding hello_compression
hello_ciphers major minor mem data_len pos hostname =
    let inside = (do
      len ← be16_at mem pos
      hello_compression major minor mem data_len (pos + (2 + len)) hostname) in
    if ltb data_len (pos + 2) then ok hostname else inside

-- "Handshake" and "Session ID".
unfoldable pub hello_session :
    (major minor : ℕ) (mem : List ℕ) (data_len : ℕ) (hostname : List ℕ) → Run (List ℕ)
unfolding hello_ciphers
hello_session major minor mem data_len hostname =
    let session = (do
      len ← read mem 43
      hello_ciphers major minor mem data_len (43 + (1 + len)) hostname) in
    let handshake = (do
      type ← read mem 5
      if not (type == 1) || ltb data_len 44 then ok hostname else session) in
    if ltb data_len 6 then ok hostname else handshake

-- tls_version_major < 3: on a platform where char is signed a byte from 0x80 on is negative.
abbrev pub major_too_old : (signed_char : Bool) → ℕ → Bool
major_too_old signed_char major = ltb major 3 || (signed_char && leb 0x80 major)

unfoldable pub parse_tls_header :
    (signed_char : Bool) (mem : List ℕ) (data_len : ℕ) (hostname : List ℕ) → Run (List ℕ)
unfolding hello_session
parse_tls_header signed_char mem data_len hostname =
    let header = (do
      type ← read mem 0
      major ← read mem 1
      minor ← read mem 2
      record_len ← be16_at mem 3
      let len = record_len + 5
      if (not (bit_and type 0x80 == 0) && minor == 1)
            || (not (type == 0x16)
                || (major_too_old signed_char major || ltb (min data_len len) len))
          then ok hostname
          else hello_session major minor mem (min data_len len) hostname) in
    if ltb data_len 5 then ok hostname else header
