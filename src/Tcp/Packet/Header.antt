-- ===== src/Tcp/Packet/Header.antt =====
-- The fields of the packets that `write_tcp` builds (app/src/main/cpp/tcp.c), as they are read.
use mobile_injection.Base.{ℕ, ◌/◌, ◌%◌, ◌^◌, ◌<◌, ◌≡◌, arith, false, List, if◌then◌else◌}
use mobile_injection.Base.Run.{ok}
use mobile_injection.Types.{TcpSession}
use mobile_injection.Net.Decode.{tcp_header}
use mobile_injection.Tcp.Packet.{Flags, tcp_header_with, tcp_segment}

-- The fields of the session fit the header fields.
pub record FitsHeader (cur : TcpSession) : Type 0 where
  pub source : cur.source < 2 ^ 16
  pub dest : cur.dest < 2 ^ 16
  pub local_seq : cur.local_seq < 2 ^ 32
  pub remote_seq : cur.remote_seq < 2 ^ 32

-- The header that the client decodes from a segment that `write_tcp` builds: the ports change
-- places, the sequence number is local_seq, the acknowledgement is remote_seq if ACK is set and 0
-- otherwise, the window is the scaled receive window modulo 2 ^ 16, and exactly the flags asked for
-- are set. The options begin where the data offset says.
pub tcp_header-tcp_segment :
    (cur : TcpSession) (bytes : List ℕ) (f : Flags)
    → FitsHeader cur
    → tcp_header (tcp_segment cur bytes f)
      ≡ ok (record {
        source = cur.dest;
        dest = cur.source;
        seq = cur.local_seq;
        ack_seq = if f.ack then cur.remote_seq else 0;
        doff = if f.syn then 7 else 5;
        fin = f.fin;
        syn = f.syn;
        rst = f.rst;
        psh = false;
        ack = f.ack;
        urg = false;
        window = cur.recv_window / 2 ^ cur.recv_scale % 2 ^ 16;
      })
unfolding tcp_header tcp_segment tcp_header_with
tcp_header-tcp_segment cur bytes f h = ground arith
