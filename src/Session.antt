-- ===== src/Session.antt =====
-- app/src/main/cpp/session.c: the list of sessions and the loop over events. Count counts the sessions
-- and asks what to wait for, Check ends and deletes them, Events serves what epoll reports, Loop is
-- handle_events, and Allowed check_allowed, init and clear.
pub mod Count
pub mod Check
pub mod Events
pub mod Allowed
pub mod Loop
pub mod Stop
pub mod Tidy
