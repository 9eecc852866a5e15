-- ===== src/Lib.antt =====
-- CertLight watches TLS certificates. A scheduler runs a collector against each target, the reconcile
-- engine compares the findings with the store and says what changed, the dispatcher turns the changes
-- into digests for the channels, and a license sets the limits.
--
-- The parts, their files here, and the code they model:
--
-- Base: the names that all parts share, Boolean tests on numbers, lists, Go's loops that return an
-- error, Go maps, and signed integers.
--
-- Core (core/finding.go, core/collector.go): severities and states, which are strings in Go, as data
-- types with a constructor for the strings that no constant names, so that each string is one of
-- them; Finding, its check at ingest (validate_for_ingest is ValidateForIngest), Fingerprint over a
-- parameter for SHA-256, and the metadata of a collector.
--
-- Store (store/store.go, store/reconcile.go, store/memory.go, store/sqlite.go, store/ulid.go).
-- Store/Records has the interface: a record of operations, StoreOps, and its laws, StoreLaws, which
-- say what a store's view of one record per module and fingerprint promises; a store may give
-- evidence back in another form, which then stays. Store/Memory is MemStore and Store/Sqlite is
-- SQLiteStore; each has a module Laws that fills the laws. Store/Targets is the interface of a
-- store of targets, TargetOps with TargetLaws, which Store/Memory/Targets and Store/Sqlite/Saved
-- fill. The database of SQLiteStore is a record of the statements that the code sends, and
-- Store/Sqlite/Tables says what SQLite documents of each: a table is a list of rows, and without
-- ORDER BY a query may give them in any order. Store/Sqlite/Retention is the retention and the
-- saved targets, and Store/Sqlite/Survival is Reconcile over SQLiteStore, followed by retention.
-- Store/Engine is Reconcile, with a function for each part of a round: ingest for a finding,
-- age_out for a record, each a statement that changes the scan's state and may fail. Rules has the
-- lifecycle of a finding, written out apart from the code, which the theorems compare it with. The
-- files below it prove its rounds (Rounds), its two loops (Loops), and Reconcile as a whole, over
-- any store that keeps the laws. Go does not fix the order in which a map is walked; the proofs use
-- only that a listing has each fingerprint once. Store/Ulid is NewULID and its encoding.
--
-- Notify (notify/notify.go, notify/bridge.go, notify/channels.go, notify/format.go, notify/hfs.go,
-- hfsbridge/hfsbridge.go): Dispatcher has Enqueue, Flush, Close and flushLocked. The mutex makes each of
-- them one step, and Notify/Batching lets them come in any order, the timer's flush among them. A send
-- is started in flushLocked, and Notify/Retry is what each send does. Notify/Channels has the channels
-- that post JSON, Notify/Format their text, Notify/Syslog the syslog channel, with its frames in
-- Notify/Syslog/Frames, and Notify/Hfs the channel of Hexward Finding Schema events.
--
-- Sched (sched/scheduler.go): Config has withDefaults and backoffFor, on an int64 that wraps
-- around; Registry has Register, AddTarget, RemoveTarget, Start, Stop and ListTargets; Sweep is
-- what moduleLoop keeps of its targets' failures; Scan is scanOne, which calls Reconcile and then
-- OnResult, and Announcement follows a finding from there to the channels. A wait for a worker's
-- slot and the answer of Collect are arguments of scan_one. Loop is moduleLoop of the one module
-- that the product has, as a step relation with all that runs beside it: the clock, the scans and
-- their slots, AddTarget, RemoveTarget, ScanNow, Stop, and the dispatcher's timer and its Close, in
-- any order. Its end of a scan is one step, from Reconcile to the failures of the target, so two
-- rounds of Reconcile do not interleave there. A run is any number of steps, and the fields
-- launched and ended_at record what the theorems speak of.
--
-- License (license/license.go): Sign, Verify, Activate and the limits. Words has the string functions
-- that they use.
--
-- Collector (certlight/collector.go): ValidateTarget, the checks of a connection, which give weaknesses
-- that to_finding turns into findings, and Collect, which is given the connection and the answer of the
-- extra probe. A record, Library, has what the checks ask of Go's net, tls and x509.
--
-- Web (web/server.go, web/ai.go): Status sets the status of a finding, Targets adds and removes targets,
-- over any store of targets or none, and starts the scan on demand, Limit is the limit of the targets, Licensing holds the activation, Listing has the handlers that only read,
-- and Ai is AI Assist. A request to a handler is its decoded body, and a reply its HTTP status and
-- message. Routes is the server behind its routes, with all of its state, one request at a time.
--
-- Cmd (cmd/certlight/channels.go, cmd/certlight/main.go): Channels has the channels that the flags ask
-- for, Startup is main up to the start of the scheduler, with its exits, and Restart is what happens to
-- the targets from one process to the next: a session is any sequence of requests, starts and restarts.
--
-- Bounds: numbers are natural numbers and do not overflow, where the code counts scans, events or
-- bytes; a time is a number of nanoseconds. The print of a number has fuel for 20 digits, which an int
-- does not exceed; every other loop walks a list or counts down.
--
-- Not modelled: in cmd the parse of the flags, the HTTP server
-- and its shutdown, the settings of the export, and the demo; the TLS handshake (dial); in sched the
-- float64 of the jitter, whose wait is any time; internal/aiclient, a copy of another project's client.
-- Parameters stand for json.Marshal and json.Unmarshal, the clock, the id generator, crypto/rand,
-- SHA-256, ed25519, base64, the print of a date, HTTP with its ServeMux, decoders
-- and file server, the syslog connection, SQLite, the packages of
-- hexward-core and the AI client.
pub mod Base
pub mod Core
pub mod Store
pub mod Sched
pub mod Notify
pub mod License
pub mod Collector
pub mod Web
pub mod Cmd
pub mod Tests
