-- ===== src/Ip/Uid/Choice.antt =====
-- Which user `get_uid` (app/src/main/cpp/ip.c) finds in the tables of the kernel.
use mobile_injection.Base.{
  ℕ, ◌≡◌, refl, Bool, true, ◌&&◌, inl, inr, Option, none, some, List, [], ◌∷◌, ℤ, negsuc, ◌==◌,
  Bool-cases, if◌then◌else◌,
}
use mobile_injection.Types.{bytes_eq}
use mobile_injection.System.{System, Trace, ProcLine}
use mobile_injection.Util.Hex.{hex2bytes}
use mobile_injection.Ip.Uid.{swap_words, is_valid_line, table_loop, has_table, get_uid_sub}

-- A valid line of the local port, and one of the remote end too.
abbrev pub is_local : (version sport : ℕ) → ProcLine → Bool
is_local version sport l = is_valid_line version l && l.sport == sport

abbrev pub is_remote : (daddr : List ℕ) (dport : ℕ) → ProcLine → Bool
is_remote daddr dport l = l.dport == dport && bytes_eq (swap_words (hex2bytes l.hex)) daddr

-- The user of the first line of the connection, of its local port and its remote end.
abbrev pub connection_user :
    (version sport : ℕ) (daddr : List ℕ) (dport : ℕ) → List ProcLine → Option ℤ
connection_user version sport daddr dport [] = none
connection_user version sport daddr dport (l ∷ rest) =
    if is_local version sport l && is_remote daddr dport l
    then some l.uid
    else connection_user version sport daddr dport rest

-- The user of the last line of the local port.
abbrev pub port_user : (version sport : ℕ) → List ProcLine → (otherwise : ℤ) → ℤ
port_user version sport [] otherwise = otherwise
port_user version sport (l ∷ rest) otherwise =
    port_user version sport rest (if is_local version sport l then l.uid else otherwise)

abbrev pub choose : Option ℤ → (otherwise : ℤ) → ℤ
choose none otherwise = otherwise
choose (some uid) otherwise = uid

-- The user that a table should give.
abbrev pub table_user :
    (version sport : ℕ) (daddr : List ℕ) (dport : ℕ) → List ProcLine → (otherwise : ℤ) → ℤ
table_user version sport daddr dport lines otherwise =
    choose (connection_user version sport daddr dport lines)
      (port_user version sport lines otherwise)

table_loop_lem :
    (version sport : ℕ) (daddr : List ℕ) (dport : ℕ) (uid : ℤ) (lines : List ProcLine)
    → table_loop version sport daddr dport uid lines
      ≡ table_user version sport daddr dport lines uid
unfolding table_loop
table_loop_lem version sport daddr dport uid [] = refl
table_loop_lem version sport daddr dport uid (l ∷ rest) =
    elim (Bool-cases (is_local version sport l)) [
      | inl local ↦ elim (Bool-cases (is_remote daddr dport l)) [
        | inl remote ↦ rw (local, remote) refl
        | inr other ↦ rw (local, other) (table_loop_lem version sport daddr dport l.uid rest)
      ]
      | inr foreign ↦ rw foreign (table_loop_lem version sport daddr dport uid rest)
    ]

-- If there is a table for the protocol and the version and it can be read: the user is that of its first valid line
-- with the local port and the remote end of the connection; if there is none, that of its last valid
-- line with the local port; and if there is none either, -1.
pub get_uid_sub_lem :
    (sys : System) (version protocol sport : ℕ) (daddr : List ℕ) (dport : ℕ) (tr : Trace)
    (lines : List ProcLine)
    → has_table version protocol ≡ true
    → sys.table tr protocol version ≡ some lines
    → (get_uid_sub sys version protocol sport daddr dport tr).0
      ≡ choose
          (connection_user version sport daddr dport lines)
          (port_user version sport lines (negsuc 0))
unfolding get_uid_sub
get_uid_sub_lem sys version protocol sport daddr dport tr lines known found =
    rw (known, found) (table_loop_lem version sport daddr dport (negsuc 0) lines)
