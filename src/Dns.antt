-- ===== src/Dns.antt =====
-- app/src/main/cpp/dns.c: the names and messages of DNS as the code walks through them. `data` is
-- the memory from the message on, `datalen` the length of the message.
pub mod Pointers
pub mod Names
pub mod RoundTrip
use mobile_injection.Base.{
  ℕ, zero, suc, ◌+◌, ◌*◌, ◌/◌, ◌%◌, Bool, true, false, ◌&&◌, ◌||◌, Option, none, some, ◌-◌, List,
  [], ◌∷◌, ◌++◌, ℤ, pos, negsuc, is_pos, pos_part, ltb, leb, ◌==◌, drop, replicate, u8, u16,
  if◌then◌else◌,
}
use mobile_injection.Base.Run.{◌>>=◌, Run, ok, out_of_fuel, read, read_bytes, store}
use mobile_injection.Net.Decode.{read16, read32}

abbrev pub dns_qname_max : ℕ
dns_qname_max = 255

-- sizeof(struct dns_header).
abbrev pub dns_header_size : ℕ
dns_header_size = 12

-- The variables of `get_qname`: `noff` is a uint8_t, `ptr` and `off` are uint16_t.
pub record Walk : Type 0 where
  pub c : Bool
  pub noff : ℕ
  pub ptr : ℕ
  pub off : ℕ
  pub len : ℕ
  pub qname : List ℕ

-- "ptr = (len & 0x3F) * 256 + *(data + ptr + 1)": the first pointer fixes the offset behind the name.
unfoldable pub follow : (memory : List ℕ) → Walk → Run Walk
follow memory w = do
  low ← read memory (w.ptr + 1)
  let ptr = w.len % 64 * 256 + low
  len ← read memory ptr
  ok (record w { c = true; ptr = ptr; off = if w.c then w.off else u16 (w.off + 2); len = len })

-- A label is copied, with a dot behind it.
unfoldable pub copy_label : (memory : List ℕ) → Walk → Run Walk
unfolding read_bytes
copy_label memory w = do
  label ← read_bytes (drop (w.ptr + 1) memory) w.len
  qname ← store w.qname w.noff (label ++ (b'.' ∷ []))
  let ptr = u16 (w.ptr + (w.len + 1))
  len ← read memory ptr
  ok (record w { noff = u8 (w.noff + (w.len + 1)); ptr = ptr; len = len; qname = qname })

-- `while (len)`, for at most `fuel` rounds. Bits 6 and 7 of the length mark a pointer.
unfoldable pub qname_loop : (fuel : ℕ) (memory : List ℕ) (datalen : ℕ) → Walk → Run Walk
unfolding follow copy_label
qname_loop zero memory datalen w = out_of_fuel
qname_loop (suc fuel) memory datalen w =
    let jumped = (do w1 ← follow memory w; qname_loop fuel memory datalen w1) in
    let copied = (do w1 ← copy_label memory w; qname_loop fuel memory datalen w1) in
    if w.len == 0
    then ok w
    else if leb 64 w.len
    then jumped
    else if leb (w.ptr + 1 + w.len) datalen && leb (w.noff + w.len) dns_qname_max
    then copied
    else ok w

-- What `get_qname` returns: -1 if a label is too long or there is none, or the offset behind the
-- name. A NUL takes the place of the last dot.
unfoldable pub qname_result : Walk → Run (ℤ × List ℕ)
qname_result w =
    let named = (do
      qname ← store w.qname (w.noff - 1) (0 ∷ [])
      ok (pos (if w.c then w.off else u16 (w.ptr + 1)), qname)) in
    if ltb 0 w.len || w.noff == 0 then ok (negsuc 0, w.qname) else named

unfoldable pub get_qname :
    (fuel : ℕ) (memory : List ℕ) (datalen off : ℕ) (qname : List ℕ) → Run (ℤ × List ℕ)
unfolding qname_loop qname_result
get_qname fuel memory datalen off qname = do
  qname1 ← store qname 0 (0 ∷ [])
  len ← read memory off
  w ←
      qname_loop fuel memory datalen
        (record { c = false; noff = 0; ptr = off; off = off; len = len; qname = qname1 })
  qname_result w

-- A local buffer for a name. Its bytes are written before they are read.
abbrev pub name_buffer : List ℕ
name_buffer = replicate (dns_qname_max + 1) 0

-- The question: -1, or the offset behind it.
unfoldable pub skip_question : (fuel : ℕ) (memory : List ℕ) (datalen off : ℕ) → Run ℤ
unfolding get_qname
skip_question fuel memory datalen off = do
  (next, name) ← get_qname fuel memory datalen off name_buffer
  let o = pos_part next
  let question = (do qtype ← read16 memory o; qclass ← read16 memory (o + 2); ok (pos (o + 4)))
  if is_pos next && leb (o + 4) datalen then question else ok (negsuc 0)

-- The address of an A or AAAA record that is printed to the log, whatever its length says.
unfoldable pub read_address : (memory : List ℕ) (qtype qclass off : ℕ) → Run (List ℕ)
unfolding read_bytes
read_address memory qtype qclass off =
    let a = read_bytes (drop off memory) 4 in
    let aaaa = read_bytes (drop off memory) 16 in
    if qclass == 1 && qtype == 1 then a else if qclass == 1 && qtype == 28 then aaaa else ok []

-- One answer: -1, or the offset behind it.
unfoldable pub skip_answer : (fuel : ℕ) (memory : List ℕ) (datalen off : ℕ) → Run ℤ
unfolding get_qname read_address
skip_answer fuel memory datalen off = do
  (next, name) ← get_qname fuel memory datalen (u16 off) name_buffer
  let o = pos_part next
  let answer = (do
    qtype ← read16 memory o
    qclass ← read16 memory (o + 2)
    ttl ← read32 memory (o + 4)
    rdlength ← read16 memory (o + 8)
    let content = (do
      address ← read_address memory qtype qclass (o + 10)
      ok (pos (o + 10 + rdlength)))
    if leb (o + 10 + rdlength) datalen then content else ok (negsuc 0))
  if is_pos next && leb (o + 10) datalen then answer else ok (negsuc 0)

-- The answers, until one is invalid.
unfoldable pub skip_answers : (fuel acount : ℕ) (memory : List ℕ) (datalen off : ℕ) → Run (Unit {0})
unfolding skip_answer
skip_answers fuel zero memory datalen off = ok tt
skip_answers fuel (suc acount) memory datalen off = do
  next ← skip_answer fuel memory datalen off
  let rest = skip_answers fuel acount memory datalen (pos_part next)
  if is_pos next then rest else ok tt

-- The bits of struct dns_header: qr is bit 7 and opcode bits 3 to 6 of the third byte.
abbrev pub dns_qr : ℕ → ℕ
dns_qr b = b / 128 % 2

abbrev pub dns_opcode : ℕ → ℕ
dns_opcode b = b / 8 % 16

-- `parse_dns_response` only reads the message; what it finds goes to the log.
unfoldable pub parse_dns_response : (fuel : ℕ) (memory : List ℕ) (datalen : ℕ) → Run (Unit {0})
unfolding skip_question skip_answers
parse_dns_response fuel memory datalen =
    let parsed = (do
      bits ← read memory 2
      qcount ← read16 memory 4
      acount ← read16 memory 6
      let records = (do
        off ← skip_question fuel memory datalen dns_header_size
        let answers = skip_answers fuel acount memory datalen (pos_part off)
        if is_pos off then answers else ok tt)
      if dns_qr bits == 1 && dns_opcode bits == 0 && ltb 0 qcount && ltb 0 acount
          then records
          else ok tt) in
    if ltb datalen (dns_header_size + 1) then ok tt else parsed

-- The type, the class and the name of a question.
pub record Query : Type 0 where
  pub qtype : ℕ
  pub qclass : ℕ
  pub qname : List ℕ

-- `get_dns_query`: nothing is the result -1.
unfoldable pub get_dns_query : (fuel : ℕ) (memory : List ℕ) (datalen : ℕ) → Run (Option Query)
unfolding get_qname
get_dns_query fuel memory datalen =
    let parsed = (do
      bits ← read memory 2
      qcount ← read16 memory 4
      let question = (do
        (next, qname) ← get_qname fuel memory datalen dns_header_size name_buffer
        let o = pos_part next
        let query = (do
          qtype ← read16 memory o
          qclass ← read16 memory (o + 2)
          ok (some (record { qtype = qtype; qclass = qclass; qname = qname })))
        if is_pos next && (o + 4 == datalen) then query else ok none)
      if dns_qr bits == 0 && dns_opcode bits == 0 && ltb 0 qcount then question else ok none) in
    if ltb datalen (dns_header_size + 1) then ok none else parsed
