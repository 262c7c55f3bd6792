-- ===== src/Lib.antt =====
-- Verification of the telemetry collector: the path of a record from a device's
-- message through the parser and the deduplicating buffers into the database.
--
-- A device sends telemetry over gRPC. The collector (internal/collector) parses each message
-- (internal/parser) into records (internal/models) and gives them to the buffer manager
-- (internal/buffer), which keeps one record for each key in a sharded map, merges records with one
-- key, and at times flushes: it takes all records out, cuts them into batches and sends each batch
-- to a channel from which writer goroutines store it, with retries, through internal/database.
--
-- Files, each with the code that it models:
--   Prelude        shared names, byte strings, tests, lists, integers, decimal prints
--   GoMap          a Go map with string keys
--   Config         internal/config/config.go: the structs, the defaults, LoadConfig, GetDSN
--   Models         internal/models/models.go: the records, and the tags of their fields (Models/Tags)
--   Buffer/Keys    internal/buffer/buffer_manager.go: keyBuffer, its pool and the generate...Key methods
--   Buffer/Sharded internal/buffer/sharded_map.go: one map for the five copies in the file
--   Buffer/Merge   the merge...Metric functions of internal/buffer/buffer_manager.go
--   Buffer/Retry   writeWithRetry
--   Buffer/Lane    what the manager has once for each kind of record: buffer, channel, the batches
--                  with writers and, for each copy that has landed, the stored ones; the loops of Add...
--                  and Flush..., and the steps of a writer. Weights, Delivery and Rounds hold the proofs
--   Buffer/Manager FixedBufferManager: the Add... methods, GetStats; in Flushing the writers, the
--                  Flush... methods, FlushAll and Stop
--   Database       internal/database/database.go: cells, rows, columns and the batch inserts
--   Models/Enums   the String methods of the enums; Models/Floats the exact conversions to float64
--   Proto          proto/: the messages of the .proto files, a record for each
--   Parser         internal/parser/telemetry_parser.go: ParseTelemetryData in Messages, the route table and
--                  its order in Routes and Longest, the handlers in Platform and Interfaces, their loops in
--                  Packets; internal/parser/alarm_parser.go in Alarms; internal/parser/helpers.go in
--                  Helpers, Enums and Uptime. Failures, Stamps, Kinds, Answers,
--                  Unlabelled and Names hold the proofs. proto.Unmarshal is an argument (Decoders), as are the product
--                  and the prints of floats (FloatFormat)
--   Collector      internal/collector/simple_collector.go: the registry of connections,
--                  processPublishArgs in Publishing, the loop of Publish in Serving
--   Database/Helpers internal/database/helpers.go: the fields of a record by number
--   Examples       tests and the theorems at concrete inputs
-- A Go method is a function with the method's name in snake case; the receiver's fields that it
-- changes are part of what it returns.
--
-- Representation. A string is the list of its bytes. A time is a number of nanoseconds since the Unix
-- epoch, a float64 its bits. Configured ints have any sign; counters of the statistics have no upper
-- bound (the source wraps them at 2^63). The iteration order of a Go map, which Go leaves open, is the
-- order of a list of entries. Which free buffer sync.Pool hands out is an argument.
--
-- Concurrency. A method of the sharded map is one atomic step, as it holds its shard's lock; so is
-- the get-and-set of an Add method, which holds the lock of the key's shard in turn. What the
-- writers do while a flush sends, receiving batches and finishing them, is chosen by
-- Environment.writers, and the answers of the database, late successes of a timed-out attempt included,
-- by Environment.db: both are arguments. A copy that lands late is stored at the step of the write that
-- timed out. FlushAll runs its five goroutines on separate lanes; the model runs them one after another,
-- in an order that an argument picks among those that are left. A flush that an Add method starts in a
-- goroutine is a flag of its result. Records that are added while a flush runs go into the buffer that
-- it has emptied, which its rounds do not touch any more; such calls are not interleaved with it.
--
-- Fuel. The loop of a flush gets one round more than it has records. With a positive batch size
-- each round takes a record, so that is enough. No other definition has fuel except the
-- decimal print, whose fuel is the number itself.
--
-- Not modelled: logging, the exporter, main.go, the generated protocol code, tickers and sleeps, the
-- start and stop of the gRPC server, the goroutines that only log (receive timeouts, the health check),
-- and formatting helpers that nothing calls. proto.Unmarshal, yaml.Unmarshal, strconv.ParseFloat, the
-- formatting of floats, the connection pool and COPY are arguments, as are the answers of a stream.
pub mod Buffer
pub mod Collector
pub mod Config
pub mod Database
pub mod Examples
pub mod GoMap
pub mod Models
pub mod Parser
pub mod Prelude
pub mod Proto
