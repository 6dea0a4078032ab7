-- ===== src/Tcp/Downlink.antt =====
-- What the client of a session reassembles from the packets that `write_tcp` of
-- app/src/main/cpp/tcp.c writes, and what the socket gave.
pub mod Written
pub mod Follows
pub mod Reads
pub mod Polls
pub mod Segments
use mathlib.Core.Path.{subst}
use mathlib.Core.List.{append-nil}
use mobile_injection.Base.{
  ℕ, ◌+◌, ◌*◌, ◌≡◌, ◌<◌, ◌^◌, refl, sym, ◌∙◌, ap, arith, Bool, true, false, ◌||◌, ◌⊎◌, inl, inr,
  List, [], ◌∷◌, ◌++◌, ℤ, pos, negsuc, eq_ℤ, is_neg, length, drop, add32, ◌==◌, if◌then◌else◌,
  drop-length-append, Bool-cases, length-append,
}
use mobile_injection.Base.Run.{◌>>=◌, Run, ok, fault, out_of_fuel}
use mobile_injection.Types.{TcpSession, TcpState, state_eq}
use mobile_injection.System.{System, Trace, Event, Received}
use mobile_injection.Net.Header.{ip4_size, ip6_size, ip4_header, ip6_header, ipproto_tcp}
use mobile_injection.Net.Decode.{tcp_header}
use mobile_injection.Tcp.State.{St}
use mobile_injection.Tcp.Packet.{Flags, tcp_packet, tcp_segment, tcp_header_with}
use mobile_injection.Tcp.Write.{write_flags, write_tcp, write_data, write_fin_ack, write_rst}
use mobile_injection.Tcp.Packet.Header.{FitsHeader, tcp_header-tcp_segment}

-- The size of the IP header.
abbrev header_size : (version : ℕ) → ℕ
header_size version = if version == 4 then ip4_size else ip6_size

-- The sequence number and the data of a TCP packet.
unfoldable pub chunk : (version : ℕ) → List ℕ → Run (ℕ × List ℕ)
chunk version p = do
  let segment = drop (header_size version) p
  h ← tcp_header segment
  ok (h.seq, drop (4 * h.doff) segment)

-- What the client has, and the sequence number that it waits for.
pub record Client : Type 0 where
  pub stream : List ℕ
  pub next : ℕ

-- Data at the number that the client waits for is appended, any other is dropped.
unfoldable pub take_chunk : Run (ℕ × List ℕ) → Client → Client
take_chunk fault c = c
take_chunk out_of_fuel c = c
take_chunk (ok (seq, bytes)) c =
    if seq == c.next
    then record { stream = c.stream ++ bytes; next = add32 c.next (length bytes) }
    else c

-- The client after the packets of a trace that the tun device took as a whole.
unfoldable pub client : System → (version isn : ℕ) → Trace → Client
unfolding take_chunk
client sys version isn [] = record { stream = []; next = isn }
client sys version isn (Event.wrote p ∷ tr) =
    let c = client sys version isn tr in
    if eq_ℤ (sys.write tr p) (pos (length p)) then take_chunk (chunk version p) c else c
client sys version isn (event ∷ tr) = client sys version isn tr

abbrev given : Received → List ℕ
given (Received.bytes bytes) = bytes
given Received.recv_again = []
given Received.recv_failed = []

-- All that the socket gave.
unfoldable pub came : System → Trace → List ℕ
came sys [] = []
came sys (Event.received fd size ∷ tr) = came sys tr ++ given (sys.recv tr fd size)
came sys (event ∷ tr) = came sys tr

-- The fields of a session that the packets carry have their sizes.
abbrev pub HasFields : TcpSession → Type 0
HasFields cur =
    ((cur.source < 2 ^ 16) × (cur.dest < 2 ^ 16))
    × (((cur.local_seq < 2 ^ 32) × (cur.remote_seq < 2 ^ 32))
        × ((length cur.saddr ≡ (if cur.version == 4 then 4 else 16))
            × (length cur.daddr ≡ (if cur.version == 4 then 4 else 16))))

drop-header : (n : ℕ) (head bytes : List ℕ) → length head ≡ n → drop n (head ++ bytes) ≡ bytes
drop-header n head bytes e =
    ap (λ k. drop k (head ++ bytes)) (sym e) ∙ drop-length-append head bytes

drop-either :
    (b : Bool) (head4 head6 bytes : List ℕ)
    → (b ≡ true → length head4 ≡ 20)
    → (b ≡ false → length head6 ≡ 40)
    → drop (if b then ip4_size else ip6_size) (if b then head4 ++ bytes else head6 ++ bytes) ≡ bytes
drop-either true head4 head6 bytes h4 h6 = drop-header 20 head4 bytes (h4 refl)
drop-either false head4 head6 bytes h4 h6 = drop-header 40 head6 bytes (h6 refl)

length-addresses :
    (b : Bool) (xs ys : List ℕ)
    → length xs ≡ (if b then 4 else 16)
    → length ys ≡ (if b then 4 else 16)
    → length (xs ++ ys) ≡ (if b then 8 else 32)
length-addresses true xs ys h k = omega (arith, length-append xs ys, h, k)
length-addresses false xs ys h k = omega (arith, length-append xs ys, h, k)

drop-tcp_packet :
    (cur : TcpSession) (bytes : List ℕ) (f : Flags)
    → HasFields cur
    → drop (header_size cur.version) (tcp_packet cur bytes f) ≡ tcp_segment cur bytes f
unfolding tcp_packet ip4_header
drop-tcp_packet cur bytes f h =
    let segment = tcp_segment cur bytes f in
    let sizes = length-addresses (cur.version == 4) cur.daddr cur.saddr h.1.1.1 h.1.1.0 in
    let size : (b : Bool)
        → cur.version == 4 ≡ b
        → length (cur.daddr ++ cur.saddr) ≡ (if b then 8 else 32) =
      (λ b e. sizes ∙ ap (λ c. if c then 8 else 32) e) in
    drop-either (cur.version == 4)
      (ip4_header (ip4_size + length segment) ipproto_tcp cur.daddr cur.saddr)
      (ip6_header (length segment) ipproto_tcp cur.daddr cur.saddr) segment
      (λ e. omega (arith, size true e)) (λ e. omega (arith, size false e))

drop-tcp_segment :
    (cur : TcpSession) (bytes : List ℕ) (f : Flags)
    → f.syn ≡ false
    → drop 20 (tcp_segment cur bytes f) ≡ bytes
unfolding tcp_segment tcp_header_with
drop-tcp_segment cur bytes f e = rw e refl

pub chunk-tcp_packet :
    (cur : TcpSession) (bytes : List ℕ) (f : Flags)
    → HasFields cur
    → f.syn ≡ false
    → chunk cur.version (tcp_packet cur bytes f) ≡ ok (cur.local_seq, bytes)
unfolding chunk
chunk-tcp_packet cur bytes f h e =
    let fits : FitsHeader cur = record {
      source = h.0.0;
      dest = h.0.1;
      local_seq = h.1.0.0;
      remote_seq = h.1.0.1;
    } in
    rw (drop-tcp_packet cur bytes f h, tcp_header-tcp_segment cur bytes f fits, e)
      (ap (λ d. ok (cur.local_seq, d)) (drop-tcp_segment cur bytes (record f { syn = false }) refl))

pub take_chunk-empty : (seq : ℕ) (c : Client) → (take_chunk (ok (seq, [])) c).stream ≡ c.stream
unfolding take_chunk
take_chunk-empty seq c = elim (Bool-cases (seq == c.next)) [
  | inl e ↦ rw e (append-nil c.stream)
  | inr e ↦ rw e refl
]

pub take_chunk-next :
    (seq : ℕ) (bytes : List ℕ) (c : Client)
    → c.next ≡ seq
    → take_chunk (ok (seq, bytes)) c
      ≡ record { stream = c.stream ++ bytes; next = add32 c.next (length bytes) }
unfolding take_chunk
take_chunk-next seq bytes c e =
    let known : (seq == c.next) ≡ true = ground (arith, e) in rw known refl
