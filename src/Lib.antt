-- ===== src/Lib.antt =====
-- A model of cdmp-mini, an identity service whose writes pass through queues: of its pipeline of
-- asynchronous operations with both queues and both state stores, of the checker that keeps a field
-- unique, of the distributed lock, of the coordinator that gives out leases on user names and grades the load, and of the
-- controller that decides which requests are queued.
--
-- The program's parts and their files:
--   Base        Go maps as association lists (GoMap), signed numbers (Signed), text (Text), Boolean
--               tests (Tests), printed numbers (Decimal) and lists measured by native numbers (Lists).
--   Operation   cdmp-mini/internal/common/service/operation. Types has types.go and interfaces.go;
--               Store has state/memory.go (Upsert, Advance, RecordFailure, Get are upsert, advance,
--               record_failure, get); Queue has queue/memory/memory.go (Enqueue, Poll, Cancel,
--               Dequeue, Ack, Requeue); Pipeline and Worker have pipeline.go: NewPipeline is
--               new_pipeline, Submit is submit, ProcessOnce is process_once, and each of its branches
--               is a definition of Worker named for what it does.
--               Acts has the chains of calls that an error ends, and below it Ends the rules for what
--               a chain ends with. DbStore has state/redisdb/store.go: Records has its keys, rows and
--               entries, Table the database and the encoding that it relies on, and DbStore itself
--               NewStore, Upsert, Advance, RecordFailure and Get; Calm, Rows, Statements, Refines, Runs,
--               Entries, Past and Exclusion have the proofs, Local and Marks a small table and encoding.
--               RedisQueue has queue/redisqueue/coordinator.go: Scripts has the Lua scripts, Calls how
--               the code calls Redis, Config has NewCoordinator, Reclaim has reclaimStaleInflight with
--               its slot and recordQueueMetrics, and Coordinator the operations.
--   Lock        cdmp-mini/pkg/lock/redis_lock.go: Acquire, Release, Renew and TryAcquire; Held has the
--               proofs.
--   Pending     cdmp-mini/internal/pkg/usercache. Level has backpressure_profile.go and the levels and
--               delays of pending_state_machine.go; Decision has its decideAggregateLevel; Hash, Lease,
--               Expiry, State, Coordinator and Queries have pending_state_memory.go: Acquire, Release and
--               Heartbeat are in Coordinator, Observe, SampleQueueDepth, SampleUserQueueDepth and
--               ListExpired in Queries, and maybeExpireLocked and pruneShardLocked in Expiry.
--               Buckets and Profile have ensureDefaults and what it calls in pending_state_machine.go
--               (normalizeDelayBuckets, buildDelayBuckets, validateDelayBuckets), and Tuning has
--               UpdateBackpressureProfile.
--   Unique      cdmp-mini/internal/common/service/unique/checker.go: Config has the configuration and
--               the values derived from it, Unique itself EnsureFieldUnique, whose branches are
--               definitions named for what they do, and runLookup; First and Checks have the proofs.
--   User        cdmp-mini/internal/apiserver/service/v1/user/operation_mode_controller.go. Mode has the
--               configuration with Update and Snapshot, Decide has DecideDetailed and Decide.
--   Examples, below Operation, RedisQueue, DbStore, Unique, Lock, Pending and User, run the definitions on small inputs.
--
-- How they interact: the pipeline knows its queue, its state store and its executor only through the
-- interfaces of Operation.Types, which are records of functions over the type of the object behind
-- them. The in-memory queue and store are values of these records; the theorems on a worker fix one
-- of them or both and leave the others arbitrary. The executor is the business logic: it may change
-- anything outside and return anything, and since it is handed a pointer to the envelope, it returns the
-- envelope that it leaves too. The items in flight of the in-memory queue are pointers to items that a
-- retry changes; the code reads their keys only, so only the keys are modelled.
--
-- How state is modelled: an object is a record, and a method returns the new object beside its
-- results. A method that holds one lock for its whole body is one step, and a run is a sequence of
-- such steps; what Acquire of the pending coordinator has read of the count that all shards share, which
-- others may have changed since, is an argument of the step. The clock is an argument of each step, so that nothing is assumed about the times that
-- successive calls read. A worker reads the clock when it dequeues and when it settles an item. A Go
-- map is a list of pairs in the order in which a range loop happens to meet the keys. Times and
-- durations are natural numbers of nanoseconds; a limit or a duration that is not positive stands as
-- 0 where the code only asks whether it is positive. Numbers stay far below 2^63, so that no addition
-- wraps; the hash of a user name wraps at 2^32 as in Go. The count of active leases is a natural
-- number; in the states that are reached it is never lowered at 0, since each entry in the lease state is
-- counted.
--
-- Redis is not part of the program: the commands that the scripts call are a record of functions with
-- what Redis documents of them (Commands), and Local has a small Redis that satisfies it. A script is one
-- step. A call of Redis is answered, does not reach it, or is done while its answer gets lost; between
-- two calls other processes, and the expiry of keys, may change the store. All this, the clock and
-- the samples of SRANDMEMBER come from a World, which numbers the looks of the code at it.
--
-- The database is a record of the statements that the store makes, with what they do to the row of a
-- key. The calls of Redis and the database that the store makes, and those of the cache that the
-- checker makes, are answered, do not arrive, or are done with a lost answer as well. An error that the
-- code compares with errors.Is is compared by its text. The length of a text in bytes is that of UTF-8,
-- and a cut within a character drops the whole character. The uniqueness checker asks its callbacks;
-- what they answer during a call is part of its configuration, the retry of the lookup among them, and its two cache clients, with and
-- without a command timeout, are one.
--
-- Parameters that stand for code outside: `scaled` for the interpolation of delays in floating point,
-- `lower_rune` for unicode.ToLower, `header` for the values that a context holds, `codec` for the JSON
-- of an envelope and of a request state, `equal_fold` for strings.EqualFold.
--
-- TryAcquire of the lock recurs on its number of retries.
-- There is no fuel but in the loops of two scripts, which take one entry from a sorted set or a list in
-- each turn and have as many turns as there are entries. Other loops recur on the list that they go
-- through, or on the number of shards.
--
-- Not modelled: logs, metrics and traces, which the code does not read back; the
-- pending coordinator over Redis; HTTP, Kafka and MySQL.
pub mod Base
pub mod Lock
pub mod Operation
pub mod Pending
pub mod Unique
pub mod User
