-- ===== src/Util.antt =====
-- app/src/main/cpp/util.c: sequence number comparison, the Internet checksum and hexadecimal texts.
pub mod Serial
pub mod Checksum
pub mod Hex
pub mod Text
