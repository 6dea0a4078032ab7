-- ===== src/Tcp/Downlink/Written.antt =====
-- What one packet that `write_tcp` of app/src/main/cpp/tcp.c writes is for the client.
use mathlib.Core.Path.{subst}
use mobile_injection.Base.{
  ℕ, ◌≡◌, refl, ◌∙◌, ap, arith, true, false, ◌⊎◌, inl, inr, List, [], ◌∷◌, ℤ, pos, negsuc, eq_ℤ,
  is_neg, length, Bool-cases,
}
use mobile_injection.Base.Run.{Run, ok}
use mobile_injection.Types.{TcpSession, TcpState}
use mobile_injection.System.{System, Trace, Event}
use mobile_injection.Tcp.State.{St}
use mobile_injection.Tcp.Packet.{Flags, tcp_packet}
use mobile_injection.Tcp.Write.{write_flags, write_tcp}
use mobile_injection.Tcp.Downlink.{
  Client, take_chunk, client, chunk, came, HasFields, chunk-tcp_packet, take_chunk-empty,
}

taken_whole : (res : ℤ) (n : ℕ) → eq_ℤ res (pos n) ≡ true → is_neg res ≡ false
taken_whole (pos k) n h = refl
taken_whole (negsuc k) n h = ground (arith, h)

module _ (sys : System) (version isn : ℕ) where
  abbrev seen : Trace → Client
  seen tr = client sys version isn tr

  seen-taken :
      (p : List ℕ) (c : Run (ℕ × List ℕ)) (tr : Trace)
      → eq_ℤ (sys.write tr p) (pos (length p)) ≡ true
      → chunk version p ≡ c
      → seen (Event.wrote p ∷ tr) ≡ take_chunk c (seen tr)
  unfolding client
  seen-taken p c tr taken read = rw (taken, read) refl

  seen-refused :
      (p : List ℕ) (tr : Trace)
      → eq_ℤ (sys.write tr p) (pos (length p)) ≡ false
      → seen (Event.wrote p ∷ tr) ≡ seen tr
  unfolding client
  seen-refused p tr refused = rw refused refl

  -- A packet that the tun device takes reaches the client, and the others close the session.
  pub write_flags-seen :
      (bytes : List ℕ) (f : Flags) (st : St)
      → HasFields st.cur
      → st.cur.version ≡ version
      → f.syn ≡ false
      → let r = write_flags sys bytes f st in
        (came sys r.1.trace ≡ came sys st.trace)
        × (((is_neg r.0 ≡ true)
              × ((r.1.cur ≡ record st.cur { state = TcpState.closing })
                  × (seen r.1.trace ≡ seen st.trace)))
            ⊎ ((is_neg r.0 ≡ false)
                × ((r.1.cur ≡ st.cur)
                    × (seen r.1.trace
                        ≡ take_chunk (ok (st.cur.local_seq, bytes)) (seen st.trace)))))
  unfolding write_flags write_tcp came
  write_flags-seen bytes f st h v e =
      let p = tcp_packet st.cur bytes f in
      let read : chunk version p ≡ ok (st.cur.local_seq, bytes) =
        subst (λ k. chunk k p ≡ ok (st.cur.local_seq, bytes)) v
          (chunk-tcp_packet st.cur bytes f h e) in
      elim (Bool-cases (eq_ℤ (sys.write st.trace p) (pos (length p)))) [
        | inl taken ↦
            rw (taken, taken_whole (sys.write st.trace p) (length p) taken)
              (refl, inr (refl, (refl, seen-taken p _ st.trace taken read)))
        | inr refused ↦ rw refused (refl, inl (refl, (refl, seen-refused p st.trace refused)))
      ]

  -- A packet without data adds nothing to what the client has, and the client waits for the same
  -- number as before.
  pub empty-seen :
      (cur : TcpSession) (f : Flags) (tr : Trace)
      → HasFields cur
      → cur.version ≡ version
      → f.syn ≡ false
      → (seen (Event.wrote (tcp_packet cur [] f) ∷ tr)).stream ≡ (seen tr).stream
  empty-seen cur f tr h v e =
      let p = tcp_packet cur [] f in
      let read : chunk version p ≡ ok (cur.local_seq, []) =
        subst (λ k. chunk k p ≡ ok (cur.local_seq, [])) v (chunk-tcp_packet cur [] f h e) in
      elim (Bool-cases (eq_ℤ (sys.write tr p) (pos (length p)))) [
        | inl taken ↦
            ap (λ c. c.stream) (seen-taken p _ tr taken read)
            ∙ take_chunk-empty cur.local_seq (seen tr)
        | inr refused ↦ ap (λ c. c.stream) (seen-refused p tr refused)
      ]
