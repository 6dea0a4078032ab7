-- ===== src/Tcp/Handle/Lookup.antt =====
-- The search of the session of a segment in `handle_tcp` (app/src/main/cpp/tcp.c).
use mobile_injection.Base.{
  ℕ, ◌≡◌, refl, ap, arith, Bool, ◌&&◌, ◌==◌, ==→eq, eq→==, true, inl, inr, Bool-cases, Option, none,
  some, List, [], ◌∷◌, ◌++◌, All,
}
use mobile_injection.Types.{TcpSession, NgSession, Ng, bytes_eq}
use mobile_injection.Net.Decode.{TcpHeader}
use mobile_injection.Net.Decode.{Addresses}
use mobile_injection.Tcp.Handle.{tcp_matches, find_tcp}
use mobile_injection.Held.{behind}

-- A session is that of the segment: it has its IP version, its ports and its addresses.
abbrev pub IsOf : Addresses → TcpHeader → TcpSession → Type 0
IsOf ip hdr cur =
    (cur.version ≡ ip.version)
    × ((cur.source ≡ hdr.source)
        × ((cur.dest ≡ hdr.dest) × ((cur.saddr ≡ ip.saddr) × (cur.daddr ≡ ip.daddr))))

both : (a b : Bool) → a && b ≡ true → (a ≡ true) × (b ≡ true)
both a b h = ground (arith, h)

bytes_eq→eq : (xs ys : List ℕ) → bytes_eq xs ys ≡ true → xs ≡ ys
bytes_eq→eq [] [] h = refl
bytes_eq→eq [] (y ∷ ys) h = absurd (ground (arith, h))
bytes_eq→eq (x ∷ xs) [] h = absurd (ground (arith, h))
bytes_eq→eq (x ∷ xs) (y ∷ ys) h =
    let (first, others) = both (x == y) (bytes_eq xs ys) h in
    rw (==→eq x y first, bytes_eq→eq xs ys others) refl

bytes_eq_refl : (xs : List ℕ) → bytes_eq xs xs ≡ true
bytes_eq_refl [] = refl
bytes_eq_refl (x ∷ xs) = rw (eq→== x x refl, bytes_eq_refl xs) refl

tcp_matches-IsOf :
    (ip : Addresses) (hdr : TcpHeader) (cur : TcpSession)
    → tcp_matches ip hdr cur ≡ true
    → IsOf ip hdr cur
tcp_matches-IsOf ip hdr cur h =
    let (version, h1) = both (cur.version == ip.version) _ h in
    let (source, h2) = both (cur.source == hdr.source) _ h1 in
    let (dest, h3) = both (cur.dest == hdr.dest) _ h2 in
    let (saddr, daddr) = both (bytes_eq cur.saddr ip.saddr) (bytes_eq cur.daddr ip.daddr) h3 in
    (
      ==→eq cur.version ip.version version,
      (
        ==→eq cur.source hdr.source source,
        (
          ==→eq cur.dest hdr.dest dest,
          (bytes_eq→eq cur.saddr ip.saddr saddr, bytes_eq→eq cur.daddr ip.daddr daddr),
        ),
      ),
    )

IsOf-tcp_matches :
    (ip : Addresses) (hdr : TcpHeader) (cur : TcpSession)
    → IsOf ip hdr cur
    → tcp_matches ip hdr cur ≡ true
IsOf-tcp_matches ip hdr cur (version, (source, (dest, (saddr, daddr)))) =
    rw
      (
        eq→== cur.version ip.version version,
        eq→== cur.source hdr.source source,
        eq→== cur.dest hdr.dest dest,
        saddr,
        daddr,
        bytes_eq_refl ip.saddr,
        bytes_eq_refl ip.daddr,
      )
      refl

-- A session is not the one of the segment.
abbrev pub Misses : Addresses → TcpHeader → NgSession → Type 0
Misses ip hdr (NgSession.tcp s) = ¬ IsOf ip hdr s.session
Misses ip hdr (NgSession.udp s) = Unit
Misses ip hdr (NgSession.icmp s) = Unit

-- What the search may answer: nothing, if every session misses, or the first that does not.
abbrev pub Answers :
    Addresses
    → TcpHeader
    → List NgSession
    → Option (List NgSession × Ng TcpSession × List NgSession)
    → Type 0
Answers ip hdr sessions none = All (Misses ip hdr) sessions
Answers ip hdr sessions (some (front, s, back)) =
    (sessions ≡ front ++ (NgSession.tcp s ∷ back))
    × (IsOf ip hdr s.session × All (Misses ip hdr) front)

behind-Answers :
    (ip : Addresses) (hdr : TcpHeader) (t : NgSession) (rest : List NgSession)
    (r : Option (List NgSession × Ng TcpSession × List NgSession))
    → Misses ip hdr t
    → Answers ip hdr rest r
    → Answers ip hdr (t ∷ rest) (behind t r)
unfolding behind
behind-Answers ip hdr t rest none h k = (h, k)
behind-Answers ip hdr t rest (some (front, s, back)) h (whole, (own, first)) =
    (ap (λ xs. t ∷ xs) whole, (own, (h, first)))

-- The search finds the first TCP session with the segment's version, ports and addresses and splits the
-- list around it, and finds nothing exactly when no TCP session of the list has them.
pub find_tcp_lem :
    (ip : Addresses) (hdr : TcpHeader) (sessions : List NgSession)
    → Answers ip hdr sessions (find_tcp ip hdr sessions)
unfolding find_tcp
find_tcp_lem ip hdr [] = tt
find_tcp_lem ip hdr (NgSession.tcp s ∷ rest) = elim (Bool-cases (tcp_matches ip hdr s.session)) [
  | inl found ↦ rw found (refl, (tcp_matches-IsOf ip hdr s.session found, tt))
  | inr other ↦ rw other (
      behind-Answers ip hdr (NgSession.tcp s) rest (find_tcp ip hdr rest)
        (λ own. absurd (ground (arith, other, IsOf-tcp_matches ip hdr s.session own)))
        (find_tcp_lem ip hdr rest))
]
find_tcp_lem ip hdr (NgSession.udp s ∷ rest) =
    behind-Answers ip hdr (NgSession.udp s) rest (find_tcp ip hdr rest) tt
      (find_tcp_lem ip hdr rest)
find_tcp_lem ip hdr (NgSession.icmp s ∷ rest) =
    behind-Answers ip hdr (NgSession.icmp s) rest (find_tcp ip hdr rest) tt
      (find_tcp_lem ip hdr rest)
