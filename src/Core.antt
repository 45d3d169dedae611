-- ===== src/Core.antt =====
-- The engine's core, crates/latlng-core: field updates and the collection.
pub mod Records
pub mod Fields
pub mod Indexes
pub mod Collection
pub mod Action
pub mod World
pub mod Engine
pub mod Examples
