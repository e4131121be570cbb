-- ===== src/Embed.antt =====
-- embed/embed.go: the runner that batches chunks, embeds them by a client and accounts for every
-- input. Child modules hold the types (Defs), the request ids (RequestId), the batching (Batches),
-- one batch with its bisection (Batch), the run (Run), a client with poison inputs (Poison), the
-- chunker before the run (Pipeline), and the client for tests (Fake).
pub mod Defs
pub mod RequestId
pub mod Batches
pub mod Batch
pub mod Run
pub mod Poison
pub mod Pipeline
pub mod Fake
mod Tests
