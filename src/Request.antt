-- ===== src/Request.antt =====
-- The conversion of Responses API requests into Chat Completions requests, of
-- src/openai-responses-chat-compat.ts.
pub mod Errors
pub mod Content
pub mod Items
pub mod System
pub mod Tools
pub mod MiniMax
pub mod Payload
mod Accepted
mod Refusals
mod Merging
mod Fields
mod Tooling
mod Tests
