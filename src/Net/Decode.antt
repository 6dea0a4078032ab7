-- ===== src/Net/Decode.antt =====
-- The headers that the code reads, decoded from the bytes that the struct pointer leads to.
use mobile_injection.Base.{ℕ, ◌+◌, ◌-◌, ◌^◌, ◌*◌, ◌/◌, ◌%◌, Bool, ◌==◌, List}
use mobile_injection.Base.Run.{◌>>=◌, Run, ok, read}

-- ntohs and ntohl of the word at an offset.
abbrev pub read16 : List ℕ → ℕ → Run ℕ
read16 p i = do a ← read p i; b ← read p (i + 1); ok (a * 256 + b)

abbrev pub read32 : List ℕ → ℕ → Run ℕ
read32 p i = do a ← read16 p i; b ← read16 p (i + 2); ok (a * 65536 + b)

-- struct tcphdr.
pub record TcpHeader : Type 0 where
  pub source : ℕ
  pub dest : ℕ
  pub seq : ℕ
  pub ack_seq : ℕ
  pub doff : ℕ
  pub fin : Bool
  pub syn : Bool
  pub rst : Bool
  pub psh : Bool
  pub ack : Bool
  pub urg : Bool
  pub window : ℕ

abbrev pub bit : ℕ → ℕ → Bool
bit x k = x / k % 2 == 1

unfoldable pub tcp_header : List ℕ → Run TcpHeader
tcp_header p = do
  source ← read16 p 0
  dest ← read16 p 2
  seq ← read32 p 4
  ack_seq ← read32 p 8
  offset ← read p 12
  flags ← read p 13
  window ← read16 p 14
  check ← read16 p 16
  urg_ptr ← read16 p 18
  ok (record {
    source = source;
    dest = dest;
    seq = seq;
    ack_seq = ack_seq;
    doff = offset / 16;
    fin = bit flags 1;
    syn = bit flags 2;
    rst = bit flags 4;
    psh = bit flags 8;
    ack = bit flags 16;
    urg = bit flags 32;
    window = window;
  })

-- What the IP header says of the packet.
pub record Addresses : Type 0 where
  pub version : ℕ
  pub saddr : List ℕ
  pub daddr : List ℕ

-- struct udphdr.
pub record UdpHeader : Type 0 where
  pub source : ℕ
  pub dest : ℕ

unfoldable pub udp_header : List ℕ → Run UdpHeader
udp_header p = do
  source ← read16 p 0
  dest ← read16 p 2
  len ← read16 p 4
  check ← read16 p 6
  ok (record { source = source; dest = dest })

-- length - offset of two size_t of 64 bits.
abbrev pub size_sub : (size offset : ℕ) → ℕ
size_sub size offset = (size + 2 ^ 64 - offset) % 2 ^ 64
