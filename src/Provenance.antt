-- ===== src/Provenance.antt =====
-- Provenance: the chain of claims about a forward pass, src/model_shard/request.py and provenance.py.
pub mod Request
pub mod Digest
pub mod Chain
mod Groups
mod SplitRuns
pub mod Sound
mod Samples
