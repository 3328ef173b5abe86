-- ===== src/Tpevent.antt =====
-- net/libtpevent: a server over select, poll, a poll loop with threads, or epoll.
pub mod Message
pub mod Engine
pub mod Clients
pub mod Poll
pub mod Select
pub mod Async
pub mod Epoll
pub mod Options
