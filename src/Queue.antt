-- ===== src/Queue.antt =====
-- worker/src/queue.ts: the work queue of a worker.
pub mod Backoff
pub mod Delivery
pub mod Consumer
pub mod Pull
