-- ===== src/Tests.antt =====
-- Runs of the model on inputs of the repository's tests, and the properties at concrete inputs.
pub mod Requests
pub mod Codec
pub mod Framing
pub mod Responses
pub mod Sets
pub mod Groups
pub mod Sockets
pub mod Partitions
pub mod Queues
pub mod Handlers
pub mod Brokers
pub mod Clusters
pub mod Sending
pub mod Consumers
