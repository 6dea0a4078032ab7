-- ===== src/Tcp/Queue/State.antt =====
-- The state of the session in `queue_tcp` (app/src/main/cpp/tcp.c).
use mobile_injection.Base.{ℕ, ◌≡◌, arith, Bool, List}
use mobile_injection.Types.{TcpSession}
use mobile_injection.Tcp.Queue.{queue_tcp}

pub queue_tcp-state :
    (seq : ℕ) (psh : Bool) (bytes : List ℕ) (cur : TcpSession)
    → (queue_tcp seq psh bytes cur).state ≡ cur.state
unfolding queue_tcp
queue_tcp-state seq psh bytes cur = ground arith
