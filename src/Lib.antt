-- ===== src/Lib.antt =====
-- A model of the native core of the application, app/src/main/cpp, and what is proved of it. The
-- program reads the IP packets of the device from a tun interface, keeps a session for every flow of
-- packets, plays the other end of each TCP connection towards the device, and carries the bytes over
-- ordinary sockets to an HTTP proxy.
--
-- Parts and files
--   Types: the structures of app/src/main/cpp/tun2http.h (tcp_session, segment, ng_session and the
--     others). A list linked by `next` is a List, a member of the union a constructor of NgSession, a
--     field in network notation the number that ntohs or ntohl gives.
--   System: the calls of the operating system as functions of the trace of earlier calls, so that a
--     theorem for every System holds for every behaviour of the kernel and of the peers.
--   Held: one session with its socket, its epoll events and the trace, and the search of a session.
--   Util: compare_u32, calc_checksum, hex2bytes, trim and hex of app/src/main/cpp/util.c.
--   Net: the IP headers that the packet builders write, get_mtu and get_default_mss of
--     app/src/main/cpp/ip.c, and the TCP header as it is read.
--   Tls, Http: app/src/main/cpp/tls.c (parse_tls_header) and app/src/main/cpp/http.c, with Headers for
--     get_header.
--   Tcp: app/src/main/cpp/tcp.c, one module for each group of functions. Timeout is check_tcp_session,
--     Monitor is monitor_tcp_session, Window the windows, Socket check_tcp_socket with Forward as its
--     loop over the queue, Handle handle_tcp with Create, Options, Segment, Connect and Open as its
--     parts, Queue queue_tcp, Downlink the client's side of it, Write and Packet write_tcp and the
--     functions around it. St is one session with its socket, its epoll events and the trace.
--   Udp, Icmp: app/src/main/cpp/udp.c and icmp.c. Timer is check_udp_session and check_icmp_session,
--     Socket check_udp_socket and check_icmp_socket, Handle handle_udp and handle_icmp, Packet write_udp
--     and write_icmp, Udp.Open open_udp_socket, Udp.Dhcp app/src/main/cpp/dhcp.c.
--   Dns: app/src/main/cpp/dns.c, with get_qname as a walk over the memory.
--   Ip: app/src/main/cpp/ip.c. Parse is what handle_ip reads from the headers, Uid get_uid, and Handle
--     the limit on sessions, the dispatch, and check_tun.
--   Session: app/src/main/cpp/session.c. Loop is handle_events, with Count, Check and Events as the
--     parts of one round, and Allowed check_allowed, init and clear. Tidy is an invariant of the list.
--   Service: app/src/main/cpp/tun2http.c. State is the process with its threads, Calls jni_init,
--     jni_start, jni_stop and jni_done, Turn what the thread of handle_events does in one turn, Steps the
--     steps that they may take in any order, Java the calls into Java, and Values jni_get_mtu and
--     jni_getprop.
--   Base: tests, lists, integers and words over the native numbers, and Run, the outcome of code that
--     reads memory and loops: a value, a read outside the memory, or no round left.
--   Tests: concrete sessions and packets.
--
-- Interaction: handle_events counts the sessions, asks what to wait for (monitor_tcp_session), ends and
-- deletes sessions (check_session), and serves what epoll reports: check_tun reads packets, which
-- handle_ip passes to handle_tcp, handle_udp and handle_icmp; the check functions of the sockets read
-- answers and write packets to the tun device. handle_tcp finds or makes the session of a packet and queues
-- its data (queue_tcp); check_tcp_socket sends the queue to the socket and writes what it reads
-- (write_data). An event of a session names it by the number of sessions behind it in the list, which does
-- not change while events are served. jni_start makes the thread that runs handle_events, and jni_stop
-- ends it by a byte in a pipe, which epoll reports to the loop, and clears the list.
--
-- Bounds and fuel: integers of the code are natural numbers with the wrap written out where C wraps. The
-- loop over the options of a SYN has the rounds as an argument; the list below says how many are
-- enough and when none are. The loops of the TLS and the HTTP parser are given the length of their
-- data and one round more. The rounds of the loop that drains the proxy's answer are an argument, since
-- only the peer ends it, and so are the rounds of the loops over packets and events. The walk over a DNS
-- name and that over IPv6 extension headers have their rounds as an argument too. A size_t has 64 bits.
-- A buffer behind the bytes that were read into it holds what the System says. Shifts by 32 or more,
-- which C leaves undefined, shift everything out. A read or a write outside the memory is a fault, which
-- ends the model where C goes on undefined: so is a proxy address too long for raddr in handle_tcp. The
-- data of a segment is read as a whole, also where handle_tcp comes to use none of it. Java makes its
-- calls one after the other, in any order, beside a thread that runs too.
--
-- Not modelled: logging; JNI_OnUnload of app/src/main/cpp/tun2http.c, which only logs, and jniGlobalRef,
-- which only passes a reference on; the mutex, which nothing locks; the descriptor of
-- epoll; the application around it. What sscanf finds in a
-- line of a table of the kernel is a parameter, and so are isspace and the answers of the system to
-- tun2http.c. Memory is assumed to be granted, and `malloc` and `free` have no trace.
pub mod Base
pub mod Util
pub mod Types
pub mod System
pub mod Held
pub mod Net
pub mod Http
pub mod Tls
pub mod Tcp
pub mod Dns
pub mod Udp
pub mod Icmp
pub mod Ip
pub mod Session
pub mod Service
pub mod Tests
