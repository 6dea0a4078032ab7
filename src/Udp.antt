-- ===== src/Udp.antt =====
-- app/src/main/cpp/udp.c: the sessions of UDP. Timer is check_udp_session, Socket check_udp_socket,
-- Handle handle_udp, has_udp_session and block_udp, Open open_udp_socket and Packet write_udp.
pub mod Packet
pub mod Timer
pub mod Open
pub mod Socket
pub mod Dhcp
pub mod Handle
pub mod Tidy
