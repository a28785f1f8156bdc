-- ===== src/Client.antt =====
-- client.go: the client of a node, over the requester that carries its calls.
pub mod Requester
pub mod Retry
pub mod Queries
pub mod Blocks
pub mod Batch
pub mod Connect
pub mod Defaults
pub mod Send
pub mod Wire
