-- ===== src/Icmp.antt =====
-- app/src/main/cpp/icmp.c: the sessions of ICMP echo. Packet is the message with its identifier and
-- its checksum and write_icmp, Timer check_icmp_session, Socket check_icmp_socket, and Handle
-- handle_icmp with open_icmp_socket.
pub mod Packet
pub mod Timer
pub mod Socket
pub mod Handle
