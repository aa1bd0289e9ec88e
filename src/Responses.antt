-- ===== src/Responses.antt =====
-- The conversion of Chat Completions answers into Responses API answers, of
-- src/openai-responses-chat-compat.ts: the stream of server-sent events and the buffered body.
pub mod Items
pub mod Stream
pub mod Chunks
pub mod Sse
pub mod Protocol
pub mod Batch
pub mod Agreement
pub mod Tests
