-- ===== src/Tcp/Options.antt =====
-- "Decode options" of `handle_tcp` (app/src/main/cpp/tcp.c): the maximum segment size and the window
-- scale of a SYN.
pub mod Laws
use mobile_injection.Base.{ℕ, zero, suc, ◌-◌, ◌&&◌, ltb, ◌==◌, List, drop, if◌then◌else◌}
use mobile_injection.Base.Run.{◌>>=◌, Run, ok, out_of_fuel, read}
use mobile_injection.Net.Decode.{read16}

pub record Options : Type 0 where
  pub mss : ℕ
  pub ws : ℕ

-- One option: the values that it sets.
unfoldable pub set_option : (mem : List ℕ) (kind len : ℕ) → Options → Run Options
set_option mem kind len o =
    let size = (do mss ← read16 mem 2; ok (record o { mss = mss })) in
    let scale = (do ws ← read mem 2; ok (record o { ws = ws })) in
    if kind == 2 && len == 4 then size else if kind == 3 && len == 3 then scale else ok o

-- The loop while `optlen > 0`; `mem` is the memory from `options` on. An option of length 0 is
-- looked at again and again.
unfoldable pub options_loop : (fuel : ℕ) (mem : List ℕ) (optlen : ℕ) → Options → Run Options
unfolding set_option
options_loop zero mem optlen o = out_of_fuel
options_loop (suc fuel) mem optlen o =
    let round = (do
      kind ← read mem 0
      len ← read mem 1
      o1 ← set_option mem kind len o
      let pad = options_loop fuel (drop 1 mem) (optlen - 1) o1
      let next = options_loop fuel (drop len mem) (optlen - len) o1
      if kind == 0 then ok o else if kind == 1 then pad else next) in
    if ltb 0 optlen then round else ok o
