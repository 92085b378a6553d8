-- ===== src/System.antt =====
-- The tool of batch-anchor-cli together with the deployed program of cid-registry/src/main.rs.
pub mod Ledger
pub mod Submission
pub mod Backed
pub mod Delivered
pub mod Eventually
pub mod Toys
mod Tests
