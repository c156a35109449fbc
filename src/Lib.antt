-- ===== src/Lib.antt =====
-- pgx: PostgreSQL changes streamed to sinks, and broker messages composed into documents.
--
-- The program and its model:
--   * `pgx replicate` reads the write-ahead log. Replication.Client holds the events of
--     src/replication/client.rs and the progress that the client shares with its user.
--     Replication.Decoder is src/replication/decoder.rs: Buf and Reader the byte buffer and the
--     chaining of its readers, Tuple and Message the messages whose readers leave the relation
--     cache, Caching the readers that may write it, and Dispatch those and `decode_pgoutput`.
--     Replication.Decoder.Wire is the pgoutput format itself, written down apart from the
--     decoder. Replication.Event is src/replication/event.rs, Replication.Lsn
--     src/replication/lsn.rs, Replication.Messages src/replication/messages.rs and
--     Replication.Error src/replication/error.rs.
--   * Below the decoder stands the wire: Replication.Framing is src/replication/framing.rs
--     (frames), Replication.Proto src/replication/proto.rs (the payloads of CopyData), and
--     Replication.Scram src/replication/scram.rs. Replication.Client.Handshake and
--     Replication.Client.Stream are `ReplicationProtocol` of client.rs: startup, authentication,
--     the temporary slot and START_REPLICATION as a conversation (Client.Talk), and then
--     `stream_loop`, whose drain phase, wait phase and feedback are functions of what one turn
--     reads from outside. What a message's payload becomes goes through Proto; what is written
--     goes through Framing.
--   * Replicate holds src/commands/replicate/: TablePrefix (table_prefix.rs), Transforms
--     (transforms.rs), Filter (filter.rs: Lexer, Parser, the evaluation, Sources), Session.Gate
--     (the forwarding gate and the environment of replicate_session.rs) and Session.Run (the
--     session's loop). The loop decodes an event, asks the gate on the event as it came,
--     transforms it, and hands it to the applier and the sink; Session.Run moves the LSN as the
--     source does, call by call. Applier is applier.rs: Sql turns events into statements, and
--     Applier buffers a source transaction for the target's client. Session.Applied puts that
--     applier behind the session's trait.
--   * `pgx consume` takes messages from a broker. Consume.Session is
--     src/commands/consume_session.rs with the error policy of src/commands/consume.rs,
--     Consume.Dedupe src/consumer/dedupe.rs, Consume.DeliveryTag src/consumer/trait.rs.
--     Consume.Kafka is what src/consumer/kafka.rs keeps of its offsets when a message is settled.
--   * The document that a message asks for is composed in src/graphql. Graphql.Executor is
--     executor.rs: a selection's fields are resolved by the queries of the configuration, level by
--     level, with one query for all parents (Graphql.Loader, dataloader.rs) or one for each.
--     Graphql.Cache is the `GlobalDataCache` of pool.rs, which the loaders share between messages,
--     Graphql.Json batch.rs, and Graphql.Run the `QueryRunner` of runner.rs with that cache as a
--     state. A session of Consume asks for a document through its `composed`. Graphql.Query is
--     query.rs, which reads the text of a query; Query.Print writes one. Graphql.Schema is
--     schema.rs, with Graphql.TypeBody for what stands between the braces of a type.
--   * Downstream.Bulk is the buffer of src/downstream/bulk.rs, through which documents are
--     posted.
--   * Both commands run their sessions under Utils.SessionLoop (src/utils/session_loop.rs), with
--     the delays of Utils.Backoff (src/utils/backoff.rs).
--   * Utils.Numeric is `pg_numeric_to_string` of src/utils/format.rs, which prints the numerics
--     that queries give back.
--   * Base, Map, Text and Word are shared: results, lists, signed integers; `HashMap` as an
--     association list; UTF-8, numbers and splitting of the standard library; big-endian words.
--
-- How it is modelled. A `String` is its UTF-8 bytes. A machine integer is a number with its
-- wrap-around written out. A select loop is a function of the list of what wins each turn; the
-- list's end is the source's end (replicate) or a run that still waits (consume, the session
-- loop). What stands behind a trait or in another crate is a field of a `World` record or an
-- argument: f64, the tables of Unicode, hex, serde_json, the `bytes` crate, base64, HMAC and
-- SHA-256, the connection, the sink, the applier, the database client, the queries, the clock,
-- random numbers, and the values that other tasks write between the attempts of a
-- compare-and-exchange. A call's failure is a flag or `none`. Error texts are constructors, and
-- logging is left out. The handshake reads whole messages, each as read_backend_message_into
-- gives it, and a list that ends is a server that says no more. The futures of one `join_all` of
-- the executor run one after the other, all of them to their ends.
--
-- Bounds. print_radix has n + 1 rounds of fuel for n, and each round divides by at least 2. trim
-- has a round for each byte, and each round takes one away; so have the loops of
-- Replication.Messages, on the payload. The lexer has a round for each character and one more,
-- the parser of filters two for each token and two more, and a loop of the handshake one for each
-- message that is there and one to wait in; Filter.Lexer.Fuel, Filter.Parser.Fuel and
-- Client.Handshake.Fuel are about these. Selection sets are read with one more than the text is
-- long, which Graphql.Query.Fuel shows to be enough, and so are the type names of a line of a
-- schema (Graphql.Schema.Names). The executor recurs on the selection. All other loops are
-- structural.
--
-- Not modelled: TCP, TLS and the tasks and channels around `ReplicationProtocol`, with the
-- cancelling of a read in its middle; the SQL for replication slots; consumers and the other
-- sinks (network and processes), the directories of GraphQL files, the connections of the query
-- pool, the exports to parquet and iceberg, the other commands, and the configuration.
pub mod Base
pub mod Map
pub mod Text
pub mod Word
pub mod Replication
pub mod Replicate
pub mod Utils
pub mod Consume
pub mod Downstream
pub mod Graphql
pub mod Tests
