-- ===== src/Lib.antt =====
-- mitools: a verification library of the core of the toolkit.
--
-- The toolkit is a set of modules for small services on Node. This library models the ones that
-- keep state: persistence, which stores documents in SQLite, and locks, which keep processes apart
-- by a file; the ones that run child processes and read their output, proc and probes; the splitting
-- of texts; the debouncer of callbacks; the logger, with its sinks; the configuration, with its
-- aliases, redaction and error messages; and the scheduler of tasks.
--
-- persistence/docstore.ts keeps CBOR documents in the table `blobs`, one row for each key, with an
-- entity, a version and an expiry. persistence/entities.ts puts typed entities on top: an entity
-- builds the keys of its documents from its key fields, and reads, writes, updates and migrates them
-- through the docstore. persistence/sqlite.ts is the connection that both share, with its
-- transactions. errors/index.ts wraps what foreign code throws. locks/index.ts takes, waits for,
-- rewrites and releases a lock file, and reclaims the file of a holder that died. proc/index.ts runs
-- commands and cuts their output into clean lines; probes/index.ts asks what listens on a port, over
-- a socket or with the command lsof, and tells an empty answer from none. text/index.ts cuts a text
-- into chunks or parts at paragraphs and sentences. async/debounce.ts collapses bursts of triggers into
-- one call. logging/Logger.ts gives each log item to a tap, to the sinks and to hooks that run in fibers, and
-- logging/sinks.ts has the sinks, among them one that appends to a file for each day. config/toml.ts
-- builds providers of configuration from TOML, config/aliases.ts answers renamed keys, config/errors.ts
-- says what to edit when a value is missing, and config/base.ts hides secrets before a dump.
-- scheduling/Scheduler.ts runs tasks by cron expressions, one fiber for each, and services/logfile.ts
-- writes a file of sections.
--
-- The files:
--   Prelude        Boolean tests, lists, texts as code units, results, the decimal print
--   Errors         src/errors/index.ts: Cause for thrown values, cause_message, OperationError, sync
--   Sqlite         src/persistence/sqlite.ts: transaction, which rolls back when its callback throws
--   Docstore       src/persistence/docstore.ts: RawRow, DocMeta, the WHERE clauses as tests on a row,
--                  put for INSERT ... ON CONFLICT, likePrefix, encodeDoc, decodeDoc
--     Sync         makeSync: the statements that a transaction composes
--     Service      makeDocstore: get_doc, upsert_doc, touch_doc and the rest, each under the name of
--                  the operation; a read is a function of the table, a write returns its result and
--                  the table that it leaves
--     Schema       initializeSchema, on the columns of the table
--     Keys, Like, Lookup, Prefixes, Reads, Expiry, Calls
--                  rows by key, the LIKE operator, point reads after writes, deletes by a prefix, live
--                  rows, cleanups, and every write as a call
--   Entity         src/persistence/entities.ts: the data, encodeKeyPart, getPk, resolveExpiry and
--                  nextExpiry
--     Store        the operations of the class Entity, update and patch with their transaction
--     Migration    migrate, migrateRows and migrateAll
--     Keys, Spread, Store/Updates, Migration/Rows, Migration/Start, Migration/Documents
--                  keys, object spreads, updates, and the invariant of the migration's loop
--   Locks          src/locks/index.ts: the lock file, its metadata, staleness, createLock
--     Release      makeHandle: phase and release
--     Acquire      acquireOnce, waitForLock, tryAcquireLock, acquireLock, withLock, lockStatus
--     Acquire/Attempts, Acquire/Uses
--                  attempts under interference, waits, and uses of the lock
--     Display      humanAge, lockAge, lockLabel
--   Proc           src/proc/index.ts: RunResult, ProcError, exitCodeOf, runOk, runQuiet
--     Lines        sanitizeLine, the regular expression ANSI_RE by clauses; Lines/Clean for
--                  its characters
--     Drain        drainLines, its three listeners as steps on the state they share; Drain/Whole
--                  for its whole text
--     Watch        watchChild, captureStream, and what joinCaptured makes of a settled child
--     Run          run and capturedRun with the semaphore, as steps of the calls that share it; a
--                  deadline may fire at any step
--     Run/Joins, Run/Slots
--                  a call that is over, and the permits
--   Probes         src/probes/index.ts: probePort, parseListeners, parseCwdMap, isUnderPath, lsofScan,
--                  listeningProcesses, processCwds
--     Answers, Distinct
--                  answers of finished scans, paths, and parsed listeners
--   Chunks         src/text/index.ts: splitIntoSentences, toParagraphs, splitTextIntoChunks,
--                  splitTextIntoEqualParts
--     Bounds       how long the chunks are
--     Ink, Kept    the characters that are no spaces, in pieces, chunks and parts
--   Debounce       src/async/debounce.ts: makeDebounced, the effects of trigger and cancel and the points
--                  of the pending callback as steps; an Event is a caller's operation, a step of a
--                  fiber, or time
--     Steps, Cancelled, Quiet
--                  the invariant of all interleavings, the end after a cancel, the call after a lull
--   Logging        src/logging/types.ts and src/logging/Logger.ts: LogItem, formatArgs, makeNamed,
--                  toNotification, toLogItem
--     Sinks        src/logging/sinks.ts: the sinks over others, formatConsoleLine, formatFileLine
--     Service      makeService: emit, emitUnsafe, the hooks in their fibers, flush
--     Feeds, Order, Flush
--                  what each sink is given, and the end of a flush
--     DailyFile    dailyFileSink: the queue, its writer, the sweep, and what the disk does at each turn
--     DailyFile/Writer, DailyFile/Start, DailyFile/Order
--                  the trace of the writer, its first write, and the order of its commands
--   Config         src/config: paths, segments and the keys that name them
--     Redaction    src/config/base.ts: isSensitiveKey and redactConfig; Redaction/Hidden for what is shown
--     Aliases      src/config/aliases.ts: withAliases; Aliases/Lookup for the order of its search
--     Errors       src/config/errors.ts: the failures, their messages, remedyFor, renderConfigErrors
--     Toml         src/config/toml.ts: normalizeToml, withDottedPaths, the providers and the layers
--     Paths        keys in messages and dotted paths
--   Scheduler      src/scheduling: register, and the loop of each task as a LoopPoint, start, shutdown
--     Loops, Stopped
--                  loops that have ended, and the shutdown in any history
--   LogFile        src/services/logfile.ts: make, timestamped, section and log; LogFile/Sections for
--                  the text of the file
--   Tests          concrete inputs, and concrete functions for the foreign code
--
-- The state is explicit. The table is a list of rows in the order of their insertion, and a lock is
-- the file at one path or none. Times are milliseconds as natural numbers, and the clock's answer is
-- an argument. Texts are lists of UTF-16 code units.
--
-- Foreign code is a parameter. Cbor is the codec, with IsCodec: what an encoder emits in chunks is
-- read back. LikeOperator is SQLite's LIKE, with IsLike for the documented clauses of a prefix
-- pattern, which fold ASCII case. Numbers is JavaScript's numbers with their print, and IsNumbers
-- says that finite numbers print differently and without a `#`. Host is the process, its machine
-- and JSON, and IsHost says that JSON reads back what it wrote. What the driver or the file system
-- throws is an option at each call, and a failed write of a log file also says what has reached the
-- file. A lock attempt carries functions for what other processes do to the path between its steps,
-- and a wait carries the attempts that the effect library's schedule allows. A drain takes the
-- runtime's text decoder and the caller's callback, which may throw. A scan takes what the runs of
-- its command gave, a port probe the events of its sockets, and the parsers JavaScript's Number on
-- a text, cut down to positive integers. A tap or hook of the logger is the list of log calls that
-- it makes with its end, and a sink is any function on its state. The disk of a daily file comes
-- with each turn of its writer: the clock, the directory, and what each call throws.
--
-- A provider of configuration is any function from paths to answers, and the combinators of providers,
-- the TOML parser and the test for redacted values are parameters.
--
-- What runs at the same time is a list of events in any order. Debounce yields between any two effects
-- of an operation. In Logging an emit is one step, and the fibers of hooks yield between log calls. In
-- Proc a deadline may fire at any step, so no step depends on how long a grace period is. The
-- effect library's part is its documented behaviour: a semaphore of one permit has one holder, a sleep
-- lasts at least its time, an interrupted fiber is gone when the interrupt returns, and a queue is in
-- order.
--
-- Each loop is structural on its rows, its fields, its schedule or its text. The fuel of the
-- decimal print is one more than the number, which has fewer digits; a flush of the logger takes the
-- picks of the scheduler, and as many as the hooks have steps left are enough.
--
-- Not modelled: the indexes of the table, debug logs and spans, opening the connection, the spawning of
-- processes, runStreaming and terminateSubprocess, the tables of persistence/table.ts, which are SQL
-- texts, and the modules that are I/O or glue (network clients, React, test helpers).
pub mod Prelude
pub mod Errors
pub mod Sqlite
pub mod Docstore
pub mod Entity
pub mod Locks
pub mod Proc
pub mod Probes
pub mod Chunks
pub mod Config
pub mod Debounce
pub mod LogFile
pub mod Logging
pub mod Scheduler
pub mod Tests
