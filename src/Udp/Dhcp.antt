-- ===== src/Udp/Dhcp.antt =====
-- app/src/main/cpp/dhcp.c: the answer to a DHCP request of a tethered device.
pub mod Opcode
use mobile_injection.Base.{
  ℕ, ◌+◌, ◌*◌, Bool, true, false, ◌&&◌, List, [], ◌∷◌, ◌++◌, ltb, ◌==◌, take, replicate, le16,
  if◌then◌else◌,
}
use mobile_injection.Base.Run.{◌>>=◌, Run, ok, read, store}
use mobile_injection.Base.Text.{codes}
use mobile_injection.Types.{UdpSession}
use mobile_injection.System.{System}
use mobile_injection.Held.{Held}
use mobile_injection.Udp.Packet.{write_udp}
use mobile_injection.Net.Decode.{read32}

-- sizeof(struct dhcp_packet), up to and with option_format.
abbrev pub dhcp_size : ℕ
dhcp_size = 240

abbrev pub dhcp_magic : ℕ
dhcp_magic = 0x63825363

-- The answer without its options: a copy of the request with opcode, secs, flags, ciaddr, yiaddr,
-- siaddr and giaddr replaced.
unfoldable pub dhcp_response : System → (request : List ℕ) (siaddr : ℕ) → Run (List ℕ)
dhcp_response sys request siaddr = do
  r1 ← store (replicate 500 0) 0 (take dhcp_size request)
  r2 ← store r1 0 ((if siaddr == 0 then 2 else 4) ∷ [])
  r3 ← store r2 8 (replicate 8 0)
  r4 ← store r3 16 (sys.inet_pton (codes "10.1.10.2"))
  r5 ← store r4 20 (sys.inet_pton (codes "10.1.10.1"))
  store r5 24 (replicate 4 0)

-- `response + sizeof(struct dhcp_packet)` on a pointer to struct dhcp_packet: so many structures on.
abbrev pub options_offset : ℕ
options_offset = dhcp_size * dhcp_size

-- The options of the answer.
unfoldable pub dhcp_options : System → (siaddr : ℕ) → List ℕ
dhcp_options sys siaddr =
    let address = sys.inet_pton (codes "10.1.10.1") in
    53
    ∷ 1
    ∷ (if siaddr == 0 then 2 else 5)
    ∷ 1
    ∷ 4
    ∷ (sys.inet_pton (codes "255.255.255.0")
        ++ (3
            ∷ 4
            ∷ (address
                ++ (51
                    ∷ 4
                    ∷ (le16 3600
                        ++ (0
                            ∷ 0
                            ∷ 54
                            ∷ 4
                            ∷ (address
                                ++ (6 ∷ 4 ∷ (sys.inet_pton (codes "8.8.8.8") ++ (255 ∷ []))))))))))

-- The answer to a discover or a request. The options are written in order from the first byte on.
unfoldable pub dhcp_answer : System → (request : List ℕ) → Run (List ℕ)
unfolding dhcp_response dhcp_options
dhcp_answer sys request = do
  siaddr ← read32 request 20
  response ← dhcp_response sys request siaddr
  store response options_offset (dhcp_options sys siaddr)

-- The tests that come before the answer: the size, the magic number, the hardware type and the length
-- of its addresses.
unfoldable pub is_dhcp : (memory : List ℕ) (datalen : ℕ) → Run Bool
is_dhcp memory datalen =
    let fields = (do
      magic ← read32 memory 236
      htype ← read memory 1
      hlen ← read memory 2
      ok (magic == dhcp_magic && (htype == 1 && hlen == 6))) in
    if ltb datalen dhcp_size then ok false else fields

-- The result of `check_dhcp` is 0 (true) or -1 (false). The session's address is replaced before the
-- answer is built, and the answer goes to the tun device.
unfoldable pub check_dhcp :
    System → (memory : List ℕ) (datalen : ℕ) → Held UdpSession → Run (Bool × Held UdpSession)
unfolding is_dhcp dhcp_answer
check_dhcp sys memory datalen st = do
  dhcp ← is_dhcp memory datalen
  let cur = record st.cur { saddr = sys.inet_pton (codes "10.1.10.1") }
  let known = (do
    opcode ← read memory 0
    let answer = (do
      response ← dhcp_answer sys memory
      ok (true, record st { cur = cur; trace = (write_udp sys cur response st.trace).1 }))
    if opcode == 1 then answer else ok (true, st))
  if dhcp then known else ok (false, st)
