-- ===== src/Connections.antt =====
-- onto_platform/connections: masking, the SQL gate, and queries against mapped data sources.
pub mod Masking
pub mod DataQuery
pub mod SqlGate
pub mod Store
pub mod QueryBuilder
mod Tests
