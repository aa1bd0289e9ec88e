-- ===== src/Gateway.antt =====
-- The loop over routes and attempts of `handleProxyRequest` in src/index.ts: `Attempts` prepares one
-- attempt, `Loop` is the loop itself.
pub mod Attempts
pub mod State
pub mod Fallbacks
pub mod Loop
mod Moves
mod Bounds
mod Queue
mod Retries
mod Tests
