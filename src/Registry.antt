-- ===== src/Registry.antt =====
-- onto_platform/registry: validation, editing, storage and promotion of the registry.
pub mod Findings
pub mod Checks
pub mod Validator
pub mod RefsScan
pub mod Crud
pub mod Imports
pub mod Store
pub mod Lifecycle
pub mod Diff
pub mod Samples
mod Tests
