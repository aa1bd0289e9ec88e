-- ===== src/Observer.antt =====
-- src/response-observer.ts: what happens to the body of an answer on its way to the client.
pub mod Rewrite
pub mod Guard
pub mod Collector
mod Rewriting
mod Uncut
mod Guarding
mod Collecting
mod Tests
