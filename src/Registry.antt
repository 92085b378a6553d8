-- ===== src/Registry.antt =====
-- cid-registry: the on-chain registry of anchored documents.
pub mod Types
pub mod Anchor
pub mod Account
pub mod Program
pub mod Toys
mod UnitTests
mod Tests
