-- ===== src/Oramaclaw.antt =====
-- src/oramaclaw: the declarative control plane of the OpenClaw configuration.
pub mod Json
pub mod Pointer
pub mod Types
pub mod Store
pub mod Lock
pub mod Merge
pub mod Engine
pub mod Schema
mod Tests
