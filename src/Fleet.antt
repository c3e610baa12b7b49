-- ===== src/Fleet.antt =====
-- The mesh of peers: how fresh a peer is, its stale and recovered states, and disagreement about it.
pub mod Health
pub mod Recovery
pub mod SplitBrain
mod Tests
