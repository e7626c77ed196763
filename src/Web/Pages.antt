-- ===== src/Web/Pages.antt =====
-- What the pages of web/src/pages and two components of web/src/components compute from the data
-- that they show. The elements that are drawn are not modelled.
pub mod Confirmation
pub mod Monitor
pub mod NewMonitor
pub mod Dashboard
pub mod Operations
pub mod Execution
pub mod Components
