-- ===== src/System.antt =====
-- The calls that the program makes of the operating system. A call appends an event to the trace,
-- and the answer to a call may be any function of the trace before it and the call's arguments, so
-- that a theorem for every `System` holds for every behaviour of the kernel and of the peers.
use mobile_injection.Base.{ℕ, Bool, Option, List, ℤ, length, ◌≤◌, ◌≡◌}

-- recv: the bytes read (none at the end of the stream), EINTR or EAGAIN, or another error.
pub data Received : Type 0 where
  bytes : List ℕ → Received
  recv_again : Received
  recv_failed : Received

-- send and sendto: the number of bytes taken, EINTR or EAGAIN, or another error.
pub data Sent : Type 0 where
  count : ℕ → Sent
  send_again : Sent
  send_failed : Sent

-- What an epoll event belongs to: the pipe that stops the loop, the tun device, or a session, which
-- is told by the number of sessions behind it in the list.
pub data Source : Type 0 where
  pipe tun : Source
  session : ℕ → Source

-- epoll_wait: the ready sources with their events (none after the timeout), EINTR, or another error.
pub data Waited : Type 0 where
  ready : List (Source × ℕ) → Waited
  wait_again : Waited
  wait_failed : Waited

-- What sscanf finds in a line of a table under /proc/net: the number of fields, and the local port,
-- the remote address in hexadecimal, the remote port and the user.
pub record ProcLine : Type 0 where
  pub fields : ℕ
  pub sport : ℕ
  pub hex : List ℕ
  pub dport : ℕ
  pub uid : ℤ

pub data Event : Type 0 where
  -- time(NULL) and clock_gettime
  asked_time asked_ms asked_rand : Event
  -- write(tun, packet)
  wrote : List ℕ → Event
  -- send(socket, bytes), with MSG_MORE or not
  sent : ℤ → List ℕ → Bool → Event
  -- sendto(socket, bytes) to an address and a port
  sent_to : ℤ → List ℕ → List ℕ → ℕ → Event
  -- recv(socket, size)
  received : ℤ → ℕ → Event
  closed : ℤ → Event
  -- getsockopt SO_SNDBUF, ioctl SIOCOUTQ, getsockopt SO_ERROR
  asked_sndbuf asked_outq asked_error : ℤ → Event
  -- epoll_ctl with EPOLL_CTL_MOD and EPOLL_CTL_ADD
  modified added : ℤ → ℕ → Event
  -- setsockopt SO_KEEPALIVE
  kept_alive : ℤ → Event
  -- socket, protect_socket, fcntl F_GETFL and F_SETFL, connect to an address and a port
  opened : ℕ → Event
  protected got_flags set_nonblock : ℤ → Event
  connected : ℤ → List ℕ → ℕ → Event
  -- socket of the type SOCK_DGRAM, by protocol and version
  opened_datagram : ℕ → ℕ → Event
  -- setsockopt SO_BROADCAST, IPV6_MULTICAST_LOOP, IPV6_MULTICAST_HOPS and IPV6_ADD_MEMBERSHIP
  set_broadcast set_loop set_hops : ℤ → Event
  joined : ℤ → List ℕ → Event
  -- poll for input, read of the tun device, read of a table by protocol and version, epoll_wait, and
  -- read of the pipe
  asked_readable : ℤ → Event
  read_tun : ℕ → Event
  read_table : ℕ → ℕ → Event
  waited : ℤ → Event
  read_pipe : Event

abbrev pub Trace : Type 0
Trace = List Event

pub record System : Type 0 where
  pub time : Trace → ℕ
  pub ms : Trace → ℕ
  pub rand : Trace → ℕ
  pub write : Trace → List ℕ → ℤ
  pub send : Trace → ℤ → List ℕ → Bool → Sent
  pub send_to : Trace → ℤ → List ℕ → List ℕ → ℕ → Sent
  pub recv : Trace → ℤ → ℕ → Received
  -- the value that the call leaves in `sendbuf` and `unsent`, 0 if it fails
  pub sndbuf : Trace → ℤ → ℤ
  pub outq : Trace → ℤ → ℤ
  -- whether epoll_ctl reports an error
  pub epoll_mod_fails : Trace → ℤ → ℕ → Bool
  -- a file descriptor, or a negative number
  pub socket : Trace → ℕ → ℤ
  pub protect : Trace → ℤ → ℤ
  pub get_flags : Trace → ℤ → ℤ
  pub set_flags : Trace → ℤ → ℤ
  -- inet_pton of a textual address, and inet_ntoa of a binary one
  pub inet_pton : List ℕ → List ℕ
  pub inet_ntoa : List ℕ → List ℕ
  -- whether connect fails with another error than EINPROGRESS
  pub connect_fails : Trace → ℤ → List ℕ → ℕ → Bool
  -- a file descriptor, or a negative number
  pub datagram_socket : Trace → (protocol version : ℕ) → ℤ
  -- whether errno, as the last call that failed left it, is EINTR or EAGAIN
  pub errno_again : Trace → Bool
  pub readable : Trace → ℤ → Bool
  pub read_tun : Trace → (size : ℕ) → Received
  -- the lines of a table behind the first, or nothing if it cannot be opened
  pub table : Trace → (protocol version : ℕ) → Option (List ProcLine)
  -- what so many bytes of a fresh buffer hold that no call has written to
  pub leftover : Trace → (n : ℕ) → List ℕ
  -- epoll_wait with its timeout in milliseconds
  pub wait : Trace → ℤ → Waited

-- recv returns at most as many bytes as asked for.
abbrev pub RecvBounded : System → Type 0
RecvBounded sys =
    (tr : Trace) (fd : ℤ) (size : ℕ) (bs : List ℕ)
    → Received.bytes bs ≡ sys.recv tr fd size
    → length bs ≤ size
