-- ===== src/Tcp.antt =====
-- app/src/main/cpp/tcp.c: TCP sessions between the tun device and the sockets.
pub mod State
pub mod Packet
pub mod Write
pub mod Window
pub mod Timeout
pub mod Monitor
pub mod Forward
pub mod Open
pub mod Socket
pub mod Downlink
pub mod Options
pub mod Segment
pub mod Connect
pub mod Create
pub mod Handle
pub mod Tidy
pub mod Queue
