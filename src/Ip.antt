-- ===== src/Ip.antt =====
-- app/src/main/cpp/ip.c: packets from the tun device. Parse is what handle_ip takes from the headers,
-- Uid is get_uid and get_uid_sub, Handle the rest of handle_ip, and check_tun.
pub mod Parse
pub mod Uid
pub mod Handle
