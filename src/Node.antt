-- ===== src/Node.antt =====
-- src/model_shard/node.py and shard_map.py: one server process of the cluster.
pub mod Directory
pub mod Ownership
pub mod Scanning
pub mod Held
pub mod Owned
pub mod Requests
pub mod Head
pub mod Stream
pub mod Streaming
pub mod Rounds
pub mod Requested
pub mod Cleanup
pub mod Pipeline
pub mod Experts
pub mod Serving
pub mod Samples
mod RequestSamples
mod ServingSamples
