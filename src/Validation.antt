-- ===== src/Validation.antt =====
-- worker/src/validation.ts: reading a price from page text, and deciding whether an observation
-- still belongs to the product and variant that a plan was compiled for.
pub mod Price
pub mod Numeral
pub mod Title
pub mod Identity
