-- ===== src/Core.antt =====
-- forge-core: canonical encoding, typed objects and trees.
pub mod Cbor
pub mod Tree
pub mod Object
