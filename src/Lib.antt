-- ===== src/Lib.antt =====
-- VortexMQ, a message broker in Go, and the development that checks it.
--
-- The program. Clients reach a broker over RESP (internal/protocol, internal/network) or HTTP
-- (internal/api). The broker (internal/queue/broker.go) owns topics and an optional write-ahead log
-- (internal/wal). A topic (internal/queue/topic.go) keeps its ready messages in a ring, its delayed
-- ones in a timing wheel, those that a consumer group has handed out in the group's pending list, and
-- those that have failed for good in a dead letter queue.
--
-- The modules.
-- - Prelude, Int, Text: shared names, lists and maps over native numbers, 64-bit words, signed 64-bit
--   integers, number formatting. A Go string or byte slice is a list of bytes; a Go map is an
--   association list whose order is the order that `range` happens to take.
-- - Waiting: the loops that sleep on a condition variable, over the states that each wake-up finds, and
--   what the loops with a ticker receive.
-- - Stream: io.ReadFull on a stream of bytes.
-- - Deque: what a message buffer promises, as a double-ended queue of unbounded history.
-- - Ring (internal/queue/ring.go): RingBuffer with uint64 counters that wrap. Index and Window hold
--   the arithmetic of masks and slots; Holds the representation invariant; Grow, Refine, Pops and New
--   the methods; Calls a client's sequence of calls.
-- - Message (internal/queue/message.go): NewMessage and Clone.
-- - Wheel (internal/queue/timingwheel.go): Add, advance, run. Due says at which tick an entry goes off.
-- - Dlq (internal/queue/dlq.go): Order holds the invariant, Contents what can be read back.
-- - Group (internal/queue/consumer_group.go): Backoff is the life of a failing message, Pending the
--   pending list.
-- - Topic (internal/queue/topic.go): all the parts joined. Enqueue is about the calls that take messages
--   in, Ready and Delivery about those that hand them out, Failure about Nack and replay, Sweep about
--   the timeouts of its groups.
-- - Wal (internal/wal/wal.go): the log, with the checksum, the JSON encoding and the file system as
--   parameters. Format is one record, Replay a damaged file, Durable the writes, Restart a run and replay,
--   Survival what outlives the process.
-- - Channels (internal/queue/broker.go): the broadcast channels, as objects in a heap. Sends is about the
--   heap, Members about the sets of subscribers, Safety about the states that its callers reach.
-- - Broker (internal/queue/broker.go): the calls of the servers, over a map of topics and an optional
--   log, which is an interface here as it is in the source. Publish is what becomes of a published
--   message, Front of one that is put in front, Consume how it is handed out, Ack how it is settled, Sweep
--   the loop over the timeouts.
-- - Recovery (cmd/vortexmq/main.go): the replay of the log when the program starts. Order is about what
--   then waits in the topics.
-- - Resp (internal/protocol/resp.go): the command reader and the reply writer. Lines is about readLine,
--   Numbers about the integer parsers, RoundTrip about arrays of bulk strings, Progress about what a
--   command takes of its stream, Replies about the grammar of what is written.
-- - Server (internal/network/server.go): a client's session. Lists, Streams and Native have the commands,
--   Loop the switch and the loop around it; Answers goes through the commands' replies, Lists/Order is
--   about LPUSH and RPOP, and the children of Loop are about its end, its replies, what it does for a
--   client without the password, and what it sends. Connections is the accept loop and Stop.
-- - Api (internal/api/server.go): the HTTP handlers. Purge is about the dead letter queues.
-- - Cli (cmd/vortexmq-cli/main.go): the command line client. Output is its writer and Input its reader;
--   Silence is about what it sends, Display about what it shows.
-- - Program (cmd/vortexmq/main.go): the log behind the broker's interface, the start and the end. Logging,
--   Calls and Batch say what one call leaves in the files, Trace what a run of calls is, Ran and Runs
--   what it leaves, Restart what a start makes of that, Lossless how a run, its end and the next start fit together.
-- - Tests: runs of the code on small inputs, and the theorems at concrete inputs.
--
-- The state. A struct is a record, a method a function that returns the new record beside its result.
-- A mutex makes a method one step, so an execution is a sequence of steps; only a wait on a condition
-- variable is open to the other goroutines. A message pointer is a value: one container holds it at a
-- time, and the dead letter queue clones. The clock, random bytes and what a sleeping goroutine finds
-- when it wakes are arguments. An int64 is a signed integer that wraps at 64 bits, a uint64 a number
-- below 2 ^ 64; sizes of lists and of the wheel are not bounded.
--
-- Fuel. The doubling loop of NewRingBuffer takes 64 rounds, since a 64-bit word can be doubled 63 times
-- before it is 0. The loop of Replay takes as many rounds as its file has bytes, and each round reads
-- nine bytes at least. Decimal printing recurs on more fuel than the number. The loop of readLine takes
-- one round more than its stream has bytes, and so does the loop of handleConnection, since a line or a
-- command takes a byte at least (Server/Loop/Termination); a command that sleeps for ever is an end of
-- that loop.
--
-- Not modelled. The listener and the socket options of the TCP server, routing, headers, start and stop of
-- the HTTP server, the ports, the banner and the signal of the program, and the studio's files.
-- A write of the command line client to its connection does not fail.
-- A call on the broker in a run of Program/Trace is one step. The buffer of the log's bufio.Writer is a
-- third part of a storage beside the finished segments and the open file: a write goes to the buffer, and
-- the closing of a file loses what the buffer holds for it.
-- The words of an inline command are the values that they have when they are read. They are slices of the
-- reader's buffer, which the next read overwrites: what that does to a payload in the broker is one of the
-- arbitrary changes between the commands of a connection. What bufio.Writer sends to a
-- client by itself, when its 64 KB are full, is not counted as sent. The dead letters of one sweep have
-- one time.
-- A connection is the bytes that its client sends until it closes, and what handleConnection writes; an
-- error of the connection's writer is ignored there as here. Other clients act on the broker between the
-- commands of the connection, and while a command waits in it. Sockets, files, HTTP, JSON, CRC32 and
-- text beyond ASCII are Go's libraries, goroutine scheduling is the order of steps, and allocation does
-- not fail.
pub mod Prelude
pub mod Int
pub mod Text
pub mod Waiting
pub mod Stream
pub mod Deque
pub mod Ring
pub mod Message
pub mod Wheel
pub mod Dlq
pub mod Group
pub mod Topic
pub mod Wal
pub mod Channels
pub mod Broker
pub mod Recovery
pub mod Resp
pub mod Server
pub mod Api
pub mod Program
pub mod Cli
mod Tests
