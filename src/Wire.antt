-- ===== src/Wire.antt =====
-- src/model_shard/transport.py: the frames that the peers exchange over TCP, and
-- src/model_shard/membership/messages.py: the datagrams of the membership protocol.
pub mod Frame
mod Reading
pub mod FrameTrip
pub mod Messages
pub mod Envelope
pub mod EnvelopeTrip
pub mod Sendable
pub mod Bootstrap
pub mod Restamp
mod Samples
mod CodecSamples
