-- ===== src/Orchestrator.antt =====
-- src/model_shard/expert_orchestrator.py: the experts of a split layer, run by the shards that hold them.
pub mod Gather
pub mod Retry
pub mod Covered
pub mod Complete
pub mod Fanout
pub mod Prompt
mod Samples
