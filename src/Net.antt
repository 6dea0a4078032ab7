-- ===== src/Net.antt =====
-- The packet headers that the C code lays over its buffers (struct iphdr, ip6_hdr, tcphdr, udphdr of
-- the system's netinet headers, ippseudo, and ip6_hdr_pseudo of app/src/main/cpp/tun2http.h), and
-- `get_default_mss` and `get_mtu` of app/src/main/cpp/ip.c.
pub mod Header
pub mod Decode
