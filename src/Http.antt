-- ===== src/Http.antt =====
-- app/src/main/cpp/http.c: rewriting of HTTP requests for the proxy. Memory is the list of the bytes
-- from the data pointer on; a read past its end is a fault.
pub mod Find
pub mod Search
pub mod Patch
pub mod Insertion
pub mod Request
pub mod Headers
