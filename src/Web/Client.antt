-- ===== src/Web/Client.antt =====
-- web/src/api/client.ts
pub mod Request
pub mod Normalize
pub mod Diagnostics
pub mod Operations
pub mod Review
