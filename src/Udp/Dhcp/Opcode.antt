-- ===== src/Udp/Dhcp/Opcode.antt =====
-- What becomes of a DHCP request (app/src/main/cpp/dhcp.c).
use mobile_injection.Base.{ℕ, ◌≡◌, List, length}
use mobile_injection.Base.Run.{Run, ok}
use mobile_injection.System.{System}
use mobile_injection.Held.{Held}

-- The run returns a buffer of 500 bytes.
abbrev IsBuffer : Run (List ℕ) → Type 0
IsBuffer run = (r : List ℕ) × ((run ≡ ok r) × (length r ≡ 500))
