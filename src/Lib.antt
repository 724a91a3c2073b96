-- ===== src/Lib.antt =====
-- Verification library for agy-go, a local proxy that spreads requests over a pool of accounts.
--
-- A request enters at `HandleProxy` (internal/proxy/proxy.go). It orders the accounts of the pool with
-- the scheduler, which reads the stored quota of each, and tries them one after another: a dispatch
-- refreshes the token, sends the request and forwards the answer, or records in the pool why the
-- account was refused and lets the next one try. What has been written to the client decides whether
-- that is still allowed.
--
--   Storage          internal/storage/types.go, storage.go: accounts, pool, `FindAccount`
--   Storage/Reserve  internal/storage/db.go: the transaction that moves the rotation on
--   Quota/Parse      internal/quota/quota.go: fractions, times and Retry-After texts
--   Quota/Freshness  internal/quota/quota.go: the age of a quota snapshot
--   Quota/Capacity   internal/quota/quota.go: `ComputeCapacityState`
--   Scheduler        internal/scheduler/scheduler.go: `OrderCandidates` and its comparators
--   Proxy/Commitment internal/proxy/commitment.go: `ResponseCommitter`, and `SendBuffered`
--   Proxy/Stream     internal/proxy/stream.go: `SendStream`
--   Proxy/Classify   the tests of an error answer, from internal/quota and internal/auth
--   Proxy/Headers    internal/proxy/proxy.go: `FilterRequestHeaders`, `FilterResponseHeaders`
--   Proxy/RequestBody internal/proxy/proxy.go: `ReadRequestBody`
--   Proxy/Failover   internal/proxy/failover.go: what is recorded of an account
--   Proxy/Dispatch   internal/proxy/proxy.go: `dispatchAccount`
--   Proxy/Handle     internal/proxy/proxy.go: `HandleProxy`
--   Quota/Refresh    internal/quota/refresh.go: the workers of `ScheduleQuotaRefresh`, and what is stored
--   Accounts         internal/accounts/accounts.go: `FindAccountByTarget`; storage.go: `NextAccountID`
--   Accounts/Manage  internal/accounts/accounts.go: removing, switching and renaming an account
--   Accounts/Import  internal/accounts: the transactions of `ImportCurrent` and `ImportPool`
--   Accounts/History the invariant of the pool over all of these
--   Tokei/Wire       internal/tokei/proto.go: varints and fields of the protobuf wire format
--   Tokei/Message    internal/tokei/proto.go: timestamps, usages, and the events of the two tables
--   Tokei/Alias      internal/tokei/reader.go: the groups of aliases of `ReadConversation`
--   Tokei/Record     internal/tokei: the counters of a record, as `upsert` merges them
--   Inventory/Policy internal/inventory/policy.go: `Evaluate`, the decision on one source
--   Inventory/Plan   internal/inventory/plan.go: `assessManifest`, `plan`, `reclaimTotal`
--   Daemon/Log       internal/daemon/log.go: the rotation of the log
--   Go               bytes, float64, text functions and sort.SliceStable as the program uses them
--   Prelude          shared names, Boolean tests, lists and signed integers
--   Tests            the theorems at concrete inputs
--
-- Functions keep their Go names in snake case, structs are records and pointers are options. A
-- function that changes the pool or the writer takes it and returns the new one. float64 is a
-- parameter with the comparisons and operations that the program uses; where a theorem needs the
-- laws of IEEE 754 it has `IsIeee` as a hypothesis, whose laws exclude NaN where they must. The
-- functions of strings, strconv and time on text are a parameter without laws. The token service and
-- the backend are values: an `Attempt` holds what happens outside during one dispatch, a stream is
-- the list of chunks that its reads give. Transactions of the database either happen or leave the
-- pool as it was. A file of the log that cannot be renamed stays, and the writers of the log append
-- to it while it is rotated. Loops run over lists, without fuel, but for the wire decoder: its loop
-- over the offset has one round of fuel for each byte, since every round takes a byte at least.
-- int64 counters wrap around, and the sum of a plan stops with an error before it would.
--
-- The accounts are managed beside the requests, under the lock of the native token file, which holds
-- the token of one account; the token services and the prober are arguments. Refreshes of quotas run
-- in workers, whose sections under the lock are the steps of a relation. The search for a free id has
-- one round of fuel more than there are accounts, enough by counting. The search for
-- the root of an alias has one more than the map has entries, each of which its path meets at most once.
--
-- Two parts stand beside the requests. The token accounting reads blobs of another program, and the
-- inventory decides which old sources may be given up. What an inspection of a source tells and the
-- manifests of the ledger are functions that the plan takes; a time is its nanoseconds since Go's zero
-- time, in UTC.
--
-- Not modelled: logs, audit events and metrics, which decide nothing here; the header fields inside
-- a dispatch, whose filters stand apart; JSON and SQL encodings with the unknown members `Extra`;
-- requests that run at the same time; network and process handling; the login, the export and the
-- encryption of accounts; the command line and the installer; the cancellation of a plan, the
-- archive and the registry of the inventory; the model, the provider and the time of a usage
-- record; the ledger of the token accounting and the queries of its reader, which are SQL.
pub mod Prelude
pub mod Go
pub mod Storage
pub mod Quota
pub mod Scheduler
pub mod Proxy
pub mod Tokei
pub mod Inventory
pub mod Accounts
pub mod Daemon
mod Tests
