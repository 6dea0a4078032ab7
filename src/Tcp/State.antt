-- ===== src/Tcp/State.antt =====
-- What the functions of app/src/main/cpp/tcp.c work on: one TCP session with its socket and its
-- epoll events, and the trace of system calls.
use mobile_injection.Base.{◌∷◌}
use mobile_injection.Types.{TcpSession}
use mobile_injection.System.{System, Event}
use mobile_injection.Held.{Held}

abbrev pub St : Type 0
St = Held TcpSession

-- s->tcp.time = time(NULL).
abbrev pub stamp : System → St → St
stamp sys st = record st {
  cur = record st.cur { time = sys.time st.trace };
  trace = Event.asked_time ∷ st.trace;
}
