-- ===== src/Web.antt =====
-- web/src: what the operator's console computes. The components of the user interface library
-- are not modelled.
pub mod Types
pub mod Client
pub mod Queries
pub mod Events
pub mod Format
pub mod Pages
