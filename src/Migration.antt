-- ===== src/Migration.antt =====
-- Expert migration, src/model_shard/migration.py.
pub mod Scanner
mod Minimum
pub mod Choice
pub mod Keeps
mod Samples
