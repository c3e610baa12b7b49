-- ===== src/Agents.antt =====
-- The agent network: the stage machine, the plans and their dispatch.
pub mod Core
pub mod Stages
pub mod Plan
pub mod Dispatch
mod Tests
