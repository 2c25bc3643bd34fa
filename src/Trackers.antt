-- ===== src/Trackers.antt =====
-- src/model_shard/heat.py: the moving averages of how often experts are picked.
pub mod Average
pub mod Heat
pub mod HeatLaws
pub mod Samples
