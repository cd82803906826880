-- ===== src/Lib.antt =====
-- movie, a library of actors in Python: its wire contract, its mailbox, its dispatcher, its futures, its
-- durable state, its paths, the control messages of its cluster and its HTTP codec.
--
-- The remoting layer exchanges frames with a peer over streams. Text and numbers are checked and
-- written into bytes, and bytes that come from the peer are checked again when they are read. An
-- actor's mailbox queues what other actors send, and runs the actor's behaviour in batches on a
-- dispatcher, which shares the mailboxes out among the queues of its workers. What is not known yet is a
-- future, which runs its callbacks on the threads of an executor. A durable actor keeps its state in a
-- store: it handles a command on the state it holds, sends the new state to the store with the revision
-- it came from, and goes on when the future of the write is done. The store logs every change, and
-- projections read the log page by page, which is compacted behind them. Messages that reach no actor
-- are published as dead letters, of which a bounded window is kept. Actors are named by paths, which are
-- printed and parsed; the members of a cluster exchange control messages in JSON; and an HTTP server reads
-- requests from the pieces that a connection brings and writes responses.
--
-- Which file models what:
-- - Common (Tests, Lists, Equality): Boolean tests, lists measured by native numbers, and Python's
--   equality on the values that the runtime compares.
-- - Remoting/Errors: the exceptions of movie/remoting/errors.py, as values of a result type. The text
--   of an exception is left out.
-- - Remoting/Text: Python's strict UTF-8 (Utf8), `sorted` (Sort) and `_text_bytes` of
--   movie/remoting/wire.py. The test for normal form C reads the Unicode database, which is not part
--   of the repository: it is a parameter of which nothing is assumed.
-- - Remoting/Serialization: the value types of movie/remoting/serialization.py that frames carry,
--   with the checks of their constructors. A frozenset of manifests is a list of which only the
--   elements count: the codec sorts it.
-- - Remoting/Wire: movie/remoting/wire.py. Types and Frames are its enumerations, constants and
--   dataclasses; Writer and Reader its `_Writer` and `_Reader`, as functions that carry the bytes;
--   Parts the pairs of `_write_` and `_read_` functions; Body `_encode_body` and `_decode_body`;
--   Preamble and Header the two fixed formats with their checks; UserMessage the functions that pack
--   a user message in one go; Codec `encode_frame`, `decode_frame` and `FrameCodec`. A UUID is its
--   number, below 2^128. RoundTrip holds the rules by which a reader undoes a writer. Values of the
--   wrong Python type cannot be written down in the model, so that the `isinstance` checks have no
--   counterpart.
-- - Mailbox: `DefaultMailbox` of movie/mailbox/default.py. State is its fields; Enqueue and Run have
--   one function for each block that runs under the lock, and Enqueue composes them for a sender,
--   with the dispatcher as a parameter; Machine lets the threads run these blocks in any order, and
--   leaves free what the actor and the dispatcher do; Invariant and Reachable are about what holds in
--   every state, Fresh about the numbers of entries; Fifo is about the order of the
--   messages and those taken back. The identity of an `_Entry` is a number.
-- - Dispatch: movie/dispatch/worker_pool.py. WorkQueue is the queue of one worker, Pool the
--   operations on all of them, each run as a whole. Threads, events, timeouts and the states of
--   `start` and `stop` are left out, but that only a running pool accepts tasks.
-- - Future: movie/future.py. State is the fields of `RuntimeFuture` with one function for each block
--   under its condition, and what concurrent.futures does when a future is started or set; Machine
--   lets threads run these in any order; Callbacks and Drain are about the callbacks; Executor is
--   `CallbackExecutor` with its queue and its workers.
-- - Persistence: Errors and Model are the exceptions and values of movie/persistence/errors.py and
--   movie/persistence/model.py. Store is movie/persistence/sqlite.py: Tables holds the tables as lists
--   of rows; Mutate, Load, Projection and Feed have one function for each transaction, with the SQL
--   written out, and leave the tables as they are where the code rolls back. A passed deadline is an
--   argument, the digest of a content and the slice of an identity are parameters. Transaction has the
--   statements of `_mutate` one by one on a connection, each of which may be refused or cancelled, with
--   the commit and the rollback, which Rollback and Faultless compare with Mutate. Log lets any
--   transactions follow each other, and keeps what was ever committed; Offsets, Exact, Consistent,
--   Baseline, Preserve and Compaction lead to Guarantees; History, Once and Revisions are about writes.
--   Gate and Admission are the states of the store and the operations it admits, with its threads.
-- - Persistence/Behavior: movie/persistence/effect.py (Effect) and movie/persistence/behavior.py
--   (Actor), with the codec and the methods of a subclass as parameters that may raise. System is one
--   actor with its store: messages are handled, requests executed and completions delivered one at a
--   time, and others use the store in between. Current, Invariant and Preserve lead to Guarantees.
-- - DeadLetters: movie/actor/dead_letter.py. Broker has one function for each method of the broker, and
--   Window, Polls and Drain compare its bounded window with the log of all events. A subscription is a value that is
--   handed in and returned, and stands in the broker by its number.
-- - Http: movie/http/codec.py and movie/http/model.py. Octets has what these use of Python's bytes, Parser
--   the functions that read a head, Feed `_parse_one`, `feed` and `finish` on the buffer, which is handed in
--   and returned, and Response `render_response`. Stable, Chunks, Resume and LineEnd are about the calls of
--   `feed` one after the other, Decimal and Lengths about Content-Length, Framing and Splitting about what is
--   written. An `HttpProtocolError` is its status, and the lower case and the blanks of Unicode are parameters.
--   A round of `feed` that goes on takes at least four bytes, so the rounds are one more than the bytes.
-- - Actor: movie/actor/path.py. Names has its patterns, Endpoint addresses with the host and the port, Tree
--   the paths, a data type of roots and children, and Parse `parse_actor_path`. Cut, Chars, Descend and RoundTrip are
--   about the parser on the texts of paths, which uses the functions of Http/Octets on texts. The readers of IPv6 addresses and of UUIDs are parameters.
-- - Cluster: movie/cluster/_protocol.py. Json has the values that JSON has, Values the checks of names,
--   hosts and members, Messages a record for each message with the check of its constructor, Manifests the
--   manifests, Objects the objects that are written, MemberReading and Reading those that are read, and
--   Serializer `serialize` and `deserialize`, which RoundTrip, Payloads and Accepted are about. Python's
--   `json`, `uuid` and `ipaddress` are a parameter, `Library`.
--
-- Numbers are native natural numbers, and every bound on a field's width is the check that the code
-- makes. Loops are recursion on a list or on the number of rounds left, which the code gives
-- (`range`) but in three loops. The drain of a future loops while callbacks wait, and callbacks may register
-- more: where each has a size above those of the ones it registers, the rounds are one more than the sizes of
-- those that wait. `feed` and the drain of a subscription have one round more than the bytes and
-- the entries, of which each round that goes on takes some.
--
-- Not modelled: the network transports, TLS, the associations with their handshakes and lanes, the
-- registry and the negotiation of serializers, actor contexts and supervision, the
-- schema of the store and the closing of its connection, the runners of projections,
-- the errors of SQLite in transactions other than `_mutate`, an `_Entry` that
-- a message compares equal to, the HTTP server, the runtime of the cluster and the values it shows, and configuration.
pub mod Common
pub mod Remoting
pub mod Mailbox
pub mod Dispatch
pub mod Future
pub mod Persistence
pub mod DeadLetters
pub mod Http
pub mod Actor
pub mod Cluster
