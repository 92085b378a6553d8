-- ===== src/Indexer.antt =====
-- document-indexer: upload, broadcast and anchor.
pub mod Types
pub mod Host
pub mod Cid
pub mod Upload
pub mod Broadcast
pub mod Anchor
pub mod Publish
pub mod Ffi
pub mod Toys
mod UnitTests
mod Tests
