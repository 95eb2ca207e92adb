-- ===== src/Lib.antt =====
-- A model of eamerald: a directory of objects and relations over BoltDB, and an authorizer that
-- decides requests with policies.
--
-- The parts and their files:
--   * Base: shared helpers. Base/Exec has the errors and the transactions (`Exec`, `transact`): an
--     error comes back as a value beside the state, and a transaction that fails rolls back, as
--     bbolt's Update and Batch do behind internal/eds/pkg/bdb/tx.go.
--   * Bolt: what the backend uses of go.etcd.io/bbolt and of the message codecs, as parameters with
--     their documented laws. A cursor is the list of the entries that it has still to visit.
--   * Data: the messages of go-directory that the program reads and writes, with Direction and
--     RelationFilter of internal/eds/pkg/store/store.go.
--   * Bdb: internal/eds/pkg/bdb. Bdb/Bucket is boltdb.go and generic.go (SetBucket is `set_bucket`,
--     Get is `get_message`, and so on), Bdb/Keys is keys.go with the keys and the scan prefixes of
--     relation_store.go, Bdb/Scan is scanner.go, Bdb/Objects and Bdb/Relations are object_store.go and
--     relation_store.go. Bdb/Implements fills the interface of Store/Tx with them. Bdb/Manifest is
--     manifest_store.go.
--   * Store: Store/Tx is the interface of internal/eds/pkg/store/store.go that the services use, with
--     what they rely on, Store/Manifest its manifest operations, and Store/Page is Page of iterator.go.
--   * Ds: relation.go, metadata.go, object.go, manifest.go and stats.go of internal/eds/pkg/ds, and
--     Ds/Check for check.go, checks.go and graph.go. `Graph` stands for azm, which validates checks, searches the graph and
--     runs the pool of jobs.
--   * Service: writer.go, relations.go, importer.go, reader.go and access.go of
--     internal/eds/pkg/directory/v3. A handler of
--     the source is a function of the same name here, with the part inside its transaction named
--     with `_tx`. Service/Context has what comes from other libraries and from the request.
--     Service/Reader has the reads, Service/Reader/Check the checks, and Service/Access the AuthZEN calls
--     over them. Service/Model is model.go, with `ModelContext` for azm and what comes with a
--     request, and Service/Exporter is exporter.go.
--   * Sync: internal/eds/pkg/datasync. Sync/Handlers is handlers.go, Sync/Watermark is watermark.go,
--     Sync/Directory has the parts of directory.go, Sync/Run puts them together with the modes of
--     datasync.go, and Sync/Pipeline has the two goroutines as a step relation. `Cuckoo` in Sync/Filter
--     stands for the filter library, `Remote` in Sync/Run for the remote exporter. Sync/Manifest is
--     manifest.go, and Sync/Run/Export has a sync from another eamerald.
--   * Edge: daemon/authorizer/plugins/edge/plugin.go. Edge/Task is the plan of a task and its wait,
--     Edge/Scheduler the loop and its goroutines as a step relation.
--   * Authorizer: access.go and adl.go of daemon/authorizer/impl, with PolicyRoots and
--     SelectPolicyRoot of internal/runtime/bundles.go. Authorizer/Request has the messages and the
--     forms that are logged, Authorizer/Policy the selection of a policy, and Authorizer/Access the
--     evaluations. `Engine` stands for OPA, the query cache and the resolver of identities.
--     Authorizer/QueryCache is the cache of prepared_query_cache.go, with calls and compiler
--     replacements one after the other. Authorizer/Identity is identity.go there and in
--     daemon/directory, with `Directory` for the reader of the directory.
--   * Tests: a store in memory that keeps the laws of Bolt, a codec, and runs of the theorems.
--
-- Conventions: a Go string or byte slice is a list of numbers, a nil pointer is `none`, a map is an
-- association list, and a function that returns a value beside an error returns both. Counters are
-- uint64, or int32 in the statistics, and wrap. The loops are recursion on the lists they walk. Only a client that asks for page
-- after page runs on fuel, for which one more than the number of entries is enough, the
-- chunks of a manifest, for which one more than its length is, and the 20 digits of a uint64.
--
-- A transaction begins and commits without an error, but for the batch of a sync in Sync/Pipeline, where
-- either may fail.
--
-- Not modelled: servers, configuration, command line tools, the PostgreSQL backend, migrations, the
-- decision log, and the graph search of azm. They are input and output, or calls of libraries, or not
-- yet part of this model.
pub mod Base
pub mod Data
pub mod Bolt
pub mod Store
pub mod Ds
pub mod Bdb
pub mod Service
pub mod Authorizer
pub mod Tests
pub mod Sync
pub mod Edge
