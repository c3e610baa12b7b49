-- ===== src/Oramaclaw/Tests.antt =====
-- Runs of src/oramaclaw/ on concrete inputs.
mod Data
mod Engine
mod Plans
mod Locks
mod Schema
