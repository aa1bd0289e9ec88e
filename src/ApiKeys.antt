-- ===== src/ApiKeys.antt =====
-- src/api-key-model-filter.ts, src/api-key-quota.ts and the test of a key in src/index.ts, lines 447
-- to 490. Amounts are whole millionths of a dollar, as the database holds them; the division that
-- shows them in dollars is left out.
pub mod Filter
pub mod Quota
pub mod Admission
mod Tests
