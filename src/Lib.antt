-- ===== src/Lib.antt =====
-- mongo-overview-tool: a verification library for pkg/mot, the Go library behind the command
-- line tool, with the parts of pkg/mongo and utils/retry that it stands on.
--
-- The program connects to a MongoDB replica set or sharded cluster and reports on it. A caller
-- asks a client or a collector session for a report. A session hands out slots for remote
-- operations and caches the connections that it derives for single nodes and shards. A collector
-- passes the gate of the capability registry, asks the servers, turns the answers into findings
-- and statuses, sanitizes and sorts these, and returns them with an error that may be partial.
-- The bulk operations delete or update the documents that match a filter, batch by batch. The
-- index audit walks a catalog of collections in batches, with a signed cursor between calls.
--
-- Parts and files:
--   Base                 library names passed on, lists, strings as code points, signed integers
--                        and the stable sort, over the native numbers
--   Errors               pkg/mot/errors.go, pkg/mongo/errors.go and the two error predicates of
--                        pkg/mot/diagnostics.go: error values, errors.Is, the mapping of context
--                        errors, the retry test. A Go error is an Option Error, none for nil
--   Results              the records of pkg/mot/results.go that errors and bulk operations share
--   Diagnostics          pkg/mot/diagnostics.go: findings, statuses, sanitizing, order, summary;
--                        Diagnostics/Capability: the registry and its gate
--   Model                pkg/mongo/model.go: the members and the status of a replica set
--   Doctor               pkg/mot/doctor.go: options, failures, node findings; Doctor/Members: the
--                        findings of a replica set; Doctor/Window: the lag against the oplog
--   Document             pkg/mot/document.go: the documents that a caller gives
--   IndexAudit           pkg/mot/index_audit.go: options, the selection of the catalog, the merge;
--                        IndexAudit/Evaluate: the findings on the indexes of a collection
--   Capacity             pkg/mot/capacity.go: options, snapshots and DiffCapacity;
--                        Capacity/Snapshot: what becomes of the answers of the servers
--   Hotspot              pkg/mot/hotspot.go: options and snapshots; Hotspot/Calculate:
--                        calculateHotspot on two of them
--   Operations           pkg/mot/operations.go: options, conversion and findings of current
--                        operations; Operations/Collect: CurrentOperations over the server's answers
--   Slowlog              pkg/mot/slowlog.go: databaseSlowlogSummaryWithLimit over the server's
--                        answers, convertSlowlogView and findSlowlogAddress
--   Bulk                 pkg/mot/bulk.go: options and validation; Bulk/Run: runBulk from its
--                        retries down to one batch; Bulk/Operations: BulkDelete and BulkUpdate
--   AuditBatch           pkg/mot/index_audit_batch.go: nextIndexAuditBatch; AuditBatch/Cursor: the
--                        cursor, indexAuditBatchStart, and the middle of indexAuditBatch
--   Retry                utils/retry/retry.go: Do, DoWithContext and DoCondition
--   Session              pkg/mot/session.go: Session/Slots for acquireRemoteSlot,
--                        Session/Connections for derivedConnection and Close,
--                        Session/Capabilities for recordCapability
--   Consistency          pkg/mot/index_consistency.go: differences, their order and findings, the
--                        coverage gap and the summary; Consistency/Official for
--                        evaluateOfficialIndexConsistency, Consistency/Versions for the strategy,
--                        Consistency/Legacy for compareLegacyDefinitions, Consistency/Confirm for
--                        evaluateLegacyIndexConsistency (SHA-256 is a parameter)
--   Tests                runs at concrete inputs, and the theorems applied to them
--
-- Correspondence. A Go function has the name of the source in snake case; a part of its body that
-- has no name there is a helper beside it. A method that changes its receiver takes the old state
-- and returns the new one. Times are nanoseconds since the zero time, durations nanoseconds. A
-- float64 that is a quotient of integers is compared as the exact quotient. A bulk run logs its
-- calls: they are what the theorems on it speak about, and nothing reads them. The servers, the
-- clock, the context and the random numbers are records of functions (Bulk.Remote, Retry.Actions,
-- AuditBatch.Cursor.Codec): the driver, the codecs and HMAC are not in the repository. A cursor of
-- documents is the finite list of what it gives. What runs on several goroutines (a session) is a
-- relation between states with one step for each critical section. A map with strings for keys is an
-- association list in which each key stands once, in the order of the first insertion: the order of
-- a loop over a map is not specified by Go, and what is proved of such a loop does not speak of it.
--
-- Bounds. runBulk's loop has one round more than its retries, which Bulk.Operations.rounds counts.
-- nextIndexAuditBatch gets as many rounds as there are collections, since each round takes one at
-- least. The retry loops count their rounds down. Numbers of documents, calls and connections are
-- unbounded here, and so is the first sleep that a caller of the retry loops gives, which the code
-- counts in an int64; the product of evaluateOplogWindow wraps as an int64 does.
--
-- Not modelled: the remote calls and decoding of pkg/mongo, the collection over goroutines of the
-- index audit, of capacity and of hotspots, the collection of slow logs over shards and hosts, the
-- collector for the overview, the disk scan of the doctor, the inventories of a session, cmd,
-- internal, pkg/log and pkg/progress.
pub mod Base
pub mod Results
pub mod Errors
pub mod Diagnostics
pub mod Model
pub mod Doctor
pub mod Document
pub mod IndexAudit
pub mod Capacity
pub mod Hotspot
pub mod Operations
pub mod Slowlog
pub mod Bulk
pub mod AuditBatch
pub mod Retry
pub mod Session
pub mod Consistency
mod Tests
