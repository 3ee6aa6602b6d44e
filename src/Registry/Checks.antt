-- ===== src/Registry/Checks.antt =====
-- onto_platform/registry/checks: the six checkers, in the order in which they are registered.
pub mod Paths
pub mod Structural
pub mod Refs
pub mod Cycles
pub mod InterfaceCategory
pub mod PropertyBacking
pub mod AssetMapping
pub mod CrossProperty
