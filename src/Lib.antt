-- ===== src/Lib.antt =====
-- gstop is a terminal monitor of GaussDB and openGauss (cmd/gstop, internal/app, internal/monitor,
-- internal/healthdash, internal/alarm, internal/health), and gsbench the load generator and fault
-- injector beside it (cmd/gsbench, internal/gsbench). gsbench changes a database on purpose, so it
-- records every change before it makes it and undoes it afterwards; a controller sets how many workers
-- load the database. gstop refreshes its monitors in the background, finds who blocks whom, and
-- reports alarms to a file.
--
-- Gsbench. Action.antt models internal/gsbench/action.go: Action and its Validate, with the search for
-- secrets in Action/Secrets.antt (secretActionPayloadKey, actionPayloadContainsCredentialMaterial) and
-- journalSafeErrorText in Action/ErrorText.antt. What the code takes from Go's unicode, regexp and
-- encoding/json is the parameter GoText. Journal.antt models ApplyAction and restoreActions of
-- internal/gsbench/journal.go, with the decoding of a SQL payload from sqlstore.go: they run in a
-- state monad over any store and executor (the record Backend of Journal/Calls.antt) and write a log of
-- their calls, so that the theorems speak about the order of the calls and every way they can fail.
-- Store.antt models the SQL store of internal/gsbench/sqlstore.go: InsertPlanned, SetState, ClaimAction,
-- Pending and StaleRuns on the rows of the table meta_journal, as a Backend of the journal; a list of
-- answers tells which statements are executed and which answers are lost, and what encoding/json writes
-- is the parameter Marshal. CAST(... AS varchar(96)), which the INSERT statement makes of a run ID and
-- which cuts it to 96 characters, is the field cast of World, an operation of the database.
-- Store/Cells.antt is what the store promises, a map from a run and a number to a row. The
-- database and the executors are not modelled. Restore.antt models Restore of internal/gsbench/restore.go
-- from the plan of runs and actions to the summary, with markTerminalRestoreOutcomes, over any backend
-- (the record Coordinator), with a log of its calls. Ledger.antt models the actions of the
-- file of internal/gsbench/recovery_ledger.go: Put, MarkRestored, Pending and Snapshot; locking the
-- file, writing it and its canonical JSON are not modelled. Controller.antt models the loops of
-- internal/gsbench/controller.go: Run and RunUntil (run_rounds) and RunToMinimum (run_to_minimum).
-- float64 is a parameter, the record FloatOps; the loops recurse on the samples that MaxSamples still
-- allows. Topology.antt models the row chains of scenario 501, internal/gsbench/lock_topology.go; its
-- outer loop has one unit of fuel for each waiter, enough since a branch has a waiter at least.
-- Capacity.antt models parseTablespaceQuota of internal/gsbench/dataset_capacity.go, and Safety.antt
-- AuthorizeScenario of internal/gsbench/safety.go.
--
-- gstop. Alarm.antt models ShouldReport and CleanExpiredKeys of internal/alarm/alarm.go, and
-- Health.antt the throttle and the heartbeat of internal/health/health.go; times are whole nanoseconds
-- and durations are not negative. Refresher.antt models the scheduler of internal/app/refresher.go as a
-- step relation on its slots, flags and wait groups, where the steps of all goroutines interleave in any
-- order. Monitor.antt models internal/monitor: the BLK column and the deadlock report of
-- session_block.go (Monitor/Blocking.antt, Monitor/Deadlocks.antt; the walk of findCycle has one unit
-- of fuel more than the graph has edges, enough since it visits no session twice), and the grouping of
-- lock records in session_blocktree.go (Monitor/LockTree.antt). Healthdash.antt models ComputeScrollbar
-- of internal/healthdash/scrollbar.go.
--
-- Config. Config.antt models Load of internal/config/config.go: Config/Lines.antt the lines of a file
-- (loadFile and splitOption of parse.go), Config/Values.antt parseValue of value.go, and Config/Keys.antt
-- the tree with Get and setPath. TrimSpace, ToLower and ParseFloat are the parameter GoStrings.
--
-- Sqlshape. Sqlshape.antt models Canonical of internal/sqlshape/signature.go on lists of bytes; its loop
-- has one unit of fuel for each byte, enough since each round takes a byte at least. What a text means to
-- it is told by pieces (Sqlshape/Pieces.antt), which stand next to each other as in the text, with the
-- classes of bytes and the operators of SQL told apart from the lexer's; the SHA-256 sum of Signature is a library's.
--
-- Base.antt holds what the parts share: Boolean tests on numbers, lists and maps. An int is a number,
-- and the files say what a negative one does where the code can meet it. The parts meet in values:
-- the journal validates and stores the actions of Action.antt, the ledger keeps them, and the deadlock
-- search reads the edges that the classification of the sessions recorded.
--
-- Not modelled: the command lines, the terminal and the drawing (internal/tui, internal/app but the
-- refresher), connections and queries (internal/dbconn, internal/dbcompat), the emergency scripts
-- (internal/emergency), the rotating logs (internal/persist, internal/logging), the relations of an SQL
-- text (internal/sqlshape/relations.go), the collectors and analyses of internal/healthdash, and of internal/gsbench the scenarios, the datasets, the plan
-- baselines, the migrations of the recovery table, and the discovery and the plan of a restore.
pub mod Alarm
pub mod Base
pub mod Config
pub mod Gsbench
pub mod Health
pub mod Healthdash
pub mod Monitor
pub mod Refresher
pub mod Sqlshape
