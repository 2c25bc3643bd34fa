-- ===== src/Routing.antt =====
-- Which shard runs which expert: the grouping functions of src/model_shard/moe.py.
pub mod Group
pub mod Partition
pub mod Plain
pub mod Samples
