-- ===== src/Held.antt =====
-- What the functions that are given one session work on (app/src/main/cpp/tcp.c, udp.c and icmp.c):
-- the session with its socket and its epoll events, and the trace of system calls.
pub mod Search
use mobile_injection.Base.{
  ℕ, Bool, true, false, not, bit_and, ◌==◌, List, [], ◌∷◌, Option, none, some, ℤ, negsuc,
}
use mobile_injection.Types.{Ng, NgSession}
use mobile_injection.System.{Trace, Event}

pub record Held (A : Type 0) : Type 0 where
  pub cur : A
  pub socket : ℤ
  pub events : ℕ
  pub trace : Trace

module _ {A : Type 0} where
  -- The ng_session that a state holds, and back.
  abbrev pub to_ng : Held A → Ng A
  to_ng st = record { session = st.cur; socket = st.socket; events = st.events }

  abbrev pub of_ng : Ng A → Trace → Held A
  of_ng s tr = record { cur = s.session; socket = s.socket; events = s.events; trace = tr }

  -- close(s->socket); s->socket = -1. An error of close is only logged.
  abbrev pub close_socket : Held A → Held A
  close_socket st = record st { socket = negsuc 0; trace = Event.closed st.socket ∷ st.trace }

-- What the search of a session finds: the sessions before it, the session, and those behind it.
abbrev pub Found : Type 0 → Type 0
Found A = Option (List NgSession × Ng A × List NgSession)

module _ {A : Type 0} where
  -- cur != NULL behind the loop.
  abbrev pub is_found : Found A → Bool
  is_found none = false
  is_found (some f) = true

  -- A session in front of those before the one found.
  unfoldable pub behind : NgSession → Found A → Found A
  behind s none = none
  behind s (some (front, t, back)) = some (s ∷ front, t, back)

  -- The session that is looked at, if the test picks it, or what is found later.
  abbrev pub picked_or : Option (Ng A) → List NgSession → Found A → Found A
  picked_or none rest later = later
  picked_or (some t) rest later = some ([], t, rest)

  -- The loops that search the first session that a test picks.
  unfoldable pub find_session : (NgSession → Option (Ng A)) → List NgSession → Found A
  unfolding behind
  find_session pick [] = none
  find_session pick (s ∷ rest) = picked_or (pick s) rest (behind s (find_session pick rest))

-- events & bit.
abbrev pub has_event : (events bit : ℕ) → Bool
has_event events bit = not (bit_and events bit == 0)
