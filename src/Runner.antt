-- ===== src/Runner.antt =====
-- The gossip runner, src/model_shard/membership/runner.py.
pub mod Ownership
pub mod Loop
pub mod Latest
pub mod Outbound
pub mod Observed
mod Samples
