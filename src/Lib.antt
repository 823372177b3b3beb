-- ===== src/Lib.antt =====
-- PyKafka: a client of Apache Kafka in Python (pykafka/). The client talks to brokers in a binary
-- protocol of length-prefixed requests and responses. pykafka/protocol.py holds a class for each
-- request and response; requests write themselves into a buffer by `struct.pack_into`, at offsets
-- that they count along, and measure themselves by `__len__` first; responses are read by the format
-- interpreter of pykafka/utils/struct_helpers.py.
--
-- The parts and their files:
--   Prelude, Result: lists and numbers over the native naturals; Python's exceptions as values.
--   Struct: the module `struct` of Python: formats, `pack_into`, `unpack_from` of one field. Offsets are
--     naturals where the code's never are negative.
--   Writer: writing at an offset that moves along, as every `get_bytes` does (`struct.pack_into`, then
--     `offset +=`), and what it means that such code writes given bytes (Writer/Writes).
--   Dict: `dict` and `defaultdict`, in the order of insertion.
--   Slice: slices with negative bounds. Crc: `zlib.crc32`.
--   Compression: pykafka/utils/compression.py. gzip and snappy are no code of the repository: a record
--     of functions that the definitions take as a parameter. The framing of xerial is modelled.
--   Unpack: pykafka/utils/struct_helpers.py. `unpack` is `_unpack`, on fuel that bounds the nesting of
--     arrays; `unpack_from` gives it the length of the format, and arrays never nest deeper.
--   Protocol/Header: Request._write_header and the frame of `get_bytes`. Protocol/Topics: the loop over
--     topics and partitions that most requests share.
--   Protocol/Metadata, Produce, Fetch, Offset, OffsetCommit, OffsetFetch, ConsumerMetadata: the
--     requests: fields, `add_request` or `add_message`, `__len__`, `get_bytes`. `len(self)` of a
--     ProduceRequest compresses and keeps the compressed form, so its functions return the request too.
--   Protocol/Message, MessageSet: the classes of these names; reading `MessageSet.messages` drops the
--     compressed form that the set keeps, which `append_message` shows.
--     MessageSet/Decode is `MessageSet.decode`; its loop is on fuel, one more than the buffer is long,
--     where every size that is not negative moves it on by 12 bytes at least.
--   Protocol/Response: the responses; Response/Fetched is FetchResponse with `_unpack_message_set`, whose
--     recursion into compressed sets is bounded by a parameter, as it is by the interpreter;
--     Response/Brokers is MetadataResponse and ConsumerMetadataResponse.
--   Action: methods of objects, which leave the state they come to where they raise, too.
--   Connection: pykafka/connection.py and pykafka/utils/socket.py. A socket is a list of the pieces in which
--     its bytes arrive; each round of a loop takes a byte at least, so the number of bytes is fuel
--     enough. Connection/Requests sends: what `sendall` does to a socket is a parameter, so the other
--     side may answer in it.
--   Handlers: pykafka/handlers.py. Futures are places in a store; callers, the rounds of the worker and stop
--     are steps, and Handlers/Calls has the calls that wait one after another, the reference for them.
--     `ask` is a call that waits, `handler.request(q).get(cls)`, where the worker does what is queued.
--   Broker: pykafka/broker.py, two handlers on their connections. A connection that was made but could not
--     be opened is `detached`, since the handler still has the one before.
--   Cluster: pykafka/cluster.py. Brokers are places in a store, which the cluster and the partitions share;
--     what the calls of socket.create_connection come to is a list. Cluster/Seeds reads the seed hosts,
--     Cluster/Metadata is `_get_metadata`, Cluster/Topics TopicDict, Cluster/Update `update` and
--     `get_offset_manager`. Tries are counted, so none of this takes fuel.
--   BalancedConsumer: `_decide_partitions` of pykafka/balancedconsumer.py; `p_to_str` is a parameter.
--   Partition, Topic: `update` in pykafka/partition.py and pykafka/topic.py, and in Topic/Offsets the
--     requests for offset limits that both send to leaders. ErrorHandlers:
--     pykafka/utils/error_handlers.py. Partitioners: HashingPartitioner of pykafka/partitioners.py; the
--     order of partitions, if they have one, and the hash function are parameters. Sorted: `sorted`.
--   SimpleConsumer: pykafka/simpleconsumer.py. The module itself is OwnedPartition, Consumer has the state,
--     the updates and the error handlers of SimpleConsumer, Offsets `commit_offsets` and `fetch_offsets`,
--     Reset `reset_offsets`, Fetch `fetch`, for one thread; the other threads are seen in the locks that
--     they hold. Cluster and brokers are an interface, the record Services; the error handlers call
--     `reset_offsets`, which is a parameter of the others and takes itself at a smaller depth, as the
--     interpreter bounds it. Tries are counted. Manager has an offset manager for which theorems are stated.
--   Producer: pykafka/producer.py: OwnedBroker, of which the parts under the lock are steps; Sending is
--     `_send_request`, where the broker and the producer are an interface, the record Client, which Sent
--     fills with the operations of OwnedBroker and a broker that answers.
--   Tests: the vectors of tests/pykafka/test_protocol.py, and the theorems at concrete values.
--
-- Byte strings are lists of naturals. A byte is any natural in theorems: writing copies them.
-- Numbers are unbounded integers, as in Python; `struct.pack` refuses one that its format does not hold.
-- Text is taken as bytes. Not modelled: threads, the sockets themselves, ZooKeeper, logging, the command line.
pub mod Action
pub mod BalancedConsumer
pub mod Broker
pub mod Cluster
pub mod Compression
pub mod Connection
pub mod Crc
pub mod Dict
pub mod ErrorHandlers
pub mod Handlers
pub mod Partition
pub mod Partitioners
pub mod Prelude
pub mod Producer
pub mod Protocol
pub mod Result
pub mod SimpleConsumer
pub mod Slice
pub mod Sorted
pub mod Struct
pub mod Tests
pub mod Topic
pub mod Unpack
pub mod Writer
