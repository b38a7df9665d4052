-- ===== src/Tests.antt =====
-- Concrete inputs: tests of the definitions, and a use of each property.
pub mod Caps
pub mod Catalog
pub mod Staging
pub mod Objects
pub mod Merges
pub mod Codecs
pub mod Mounts
pub mod Graph
pub mod Authority
