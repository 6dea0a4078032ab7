-- ===== src/Tcp/Open/Protected.antt =====
-- Sockets are protected from the tunnel before they connect: `open_tcp_socket` of
-- app/src/main/cpp/tcp.c.
use mobile_injection.Base.{
  ◌≡◌, refl, Bool, true, false, ◌⊎◌, inl, inr, [], ◌∷◌, ℤ, negsuc, is_neg, if◌then◌else◌,
}
use mobile_injection.Types.{TcpSession}
use mobile_injection.System.{System, Trace, Event}
use mobile_injection.Tcp.Open.{Allowed, target_version, target, open_tcp_socket}

module _ (sys : System) where
  -- A call of protect_socket for the socket has succeeded.
  abbrev pub WasProtected : ℤ → Trace → Type 0
  WasProtected fd [] = ⊥
  WasProtected fd (Event.protected f ∷ tr) =
      ((f ≡ fd) × (is_neg (sys.protect tr f) ≡ false)) ⊎ WasProtected fd tr
  WasProtected fd (e ∷ tr) = WasProtected fd tr

  -- Before every connect its socket has been protected.
  abbrev pub AllProtected : Trace → Type 0
  AllProtected [] = Unit
  AllProtected (Event.connected fd addr port ∷ tr) = WasProtected fd tr × AllProtected tr
  AllProtected (e ∷ tr) = AllProtected tr

  -- What is returned is -1 or a protected socket.
  abbrev pub IsProtected : ℤ × Trace → Type 0
  IsProtected (fd, tr) = AllProtected tr × ((fd ≡ negsuc 0) ⊎ WasProtected fd tr)

  IsProtected-if :
      (b : Bool) (r s : ℤ × Trace)
      → IsProtected r
      → (b ≡ false → IsProtected s)
      → IsProtected (if b then r else s)
  IsProtected-if true r s h k = h
  IsProtected-if false r s h k = k refl

  -- If before every connect so far its socket has been protected with success, this is so after
  -- `open_tcp_socket` too, and what it returns is -1 or a socket that has been protected.
  pub open_tcp_socket-IsProtected :
      (redirect : Allowed) (cur : TcpSession) (tr : Trace)
      → AllProtected tr
      → IsProtected (open_tcp_socket sys redirect cur tr)
  unfolding open_tcp_socket
  open_tcp_socket-IsProtected redirect cur tr h =
      let version = target_version redirect cur in
      let sock = sys.socket tr version in
      let tr1 : Trace = Event.opened version ∷ tr in
      let tr2 : Trace = Event.protected sock ∷ tr1 in
      let tr3 : Trace = Event.got_flags sock ∷ tr2 in
      let tr4 : Trace = Event.set_nonblock sock ∷ tr3 in
      let to = target sys redirect cur in
      let tr5 : Trace = Event.connected sock to.0 to.1 ∷ tr4 in
      let failed = λ (tr : Trace) (b : Bool) (s : ℤ × Trace). if b then (negsuc 0, tr) else s in
      let s5 = failed tr5 (sys.connect_fails tr4 sock to.0 to.1) (sock, tr5) in
      let s4 = failed tr4 (is_neg (sys.set_flags tr3 sock)) s5 in
      let s3 = failed tr3 (is_neg (sys.get_flags tr2 sock)) s4 in
      let s2 = failed tr2 (is_neg (sys.protect tr1 sock)) s3 in
      IsProtected-if (is_neg sock) (negsuc 0, tr1) s2 (h, inl refl)
        (λ opened.
          IsProtected-if (is_neg (sys.protect tr1 sock)) (negsuc 0, tr2) s3 (h, inl refl)
            (λ protected.
              IsProtected-if (is_neg (sys.get_flags tr2 sock)) (negsuc 0, tr3) s4 (h, inl refl)
                (λ flags.
                  IsProtected-if (is_neg (sys.set_flags tr3 sock)) (negsuc 0, tr4) s5 (h, inl refl)
                    (λ set.
                      IsProtected-if (sys.connect_fails tr4 sock to.0 to.1) (negsuc 0, tr5)
                        (sock, tr5) ((inl (refl, protected), h), inl refl)
                        (λ connected. ((inl (refl, protected), h), inr (inl (refl, protected))))))))
