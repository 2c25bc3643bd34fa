-- ===== src/Membership.antt =====
-- src/model_shard/membership/: the SWIM membership layer.
pub mod Records
pub mod Machine
pub mod Gossip
pub mod Handlers
pub mod Tick
pub mod Spec
pub mod Runs
pub mod WellFormed
pub mod Refines
pub mod Events
pub mod Safety
pub mod Replay
pub mod Admission
pub mod Merge
pub mod Refutation
pub mod Detection
pub mod Samples
