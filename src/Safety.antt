-- ===== src/Safety.antt =====
-- worker/src/safety.ts: which product URLs, browser actions and navigations the worker accepts.
pub mod Action
pub mod Address
pub mod Url
pub mod Replay
