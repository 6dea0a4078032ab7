-- ===== src/Service.antt =====
-- app/src/main/cpp/tun2http.c: the calls that Java makes of the native code, and the thread that runs
-- handle_events. One step of a caller and one of a thread may come in any order.
pub mod State
pub mod Java
pub mod Values
pub mod Calls
pub mod Turn
pub mod Steps
pub mod Owned
pub mod Owner
pub mod Wait
pub mod Shutdown
