-- ===== src/BatchAnchor.antt =====
-- batch-anchor-cli: gathers broadcast CIDs and anchors them in batches.
pub mod Types
pub mod Store
pub mod Delivery
pub mod Submit
pub mod Run
pub mod Main
pub mod Toys
mod Tests
