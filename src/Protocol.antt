-- ===== src/Protocol.antt =====
-- pykafka/protocol.py: the requests and responses of the Kafka protocol.
pub mod Header
pub mod Message
pub mod Topics
pub mod Fetch
pub mod Produce
pub mod Response
pub mod Metadata
pub mod Offset
pub mod OffsetCommit
pub mod OffsetFetch
pub mod ConsumerMetadata
pub mod MessageSet
