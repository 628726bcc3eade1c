-- ===== src/Lib.antt =====
-- g7mediabooster is a media upload service: an HTTP application hands out direct upload
-- instructions, a worker validates what was uploaded and publishes derivatives, and a SQLite
-- database holds the state that they share. This library models the Rust code that decides.
--
-- The parts, and where each is modelled:
--   Domain    crates/g7mb-domain/src/lib.rs: the lifecycle of an upload (`UploadState`), object
--             keys, the batch policy (`UploadBatchPolicy::plan`), the limits of images and videos.
--   Ports     crates/g7mb-application/src/lib.rs: the object storage trait as a record of
--             functions over the state of the world, and a monad of fallible operations on it.
--   Uploads   crates/g7mb-application/src/uploads.rs: part layouts, metadata, raw keys, and
--             `UploadIntentService` (Uploads.Service) with create_batch, presign_part,
--             complete_multipart, confirm_single_upload, abort_multipart, status and cleanup.
--   Store     crates/g7mb-persistence-sqlite/src/lib.rs: the database as a record of tables.
--             Queue is `JobQueue`, Reservations and Confirmations are `UploadRepository`,
--             Processing is `ProcessingRepository`, Cleanup is `LifecycleRepository`, Nonces is
--             `NonceStore`. The operations on a leased row are in Queue.Leases and
--             Cleanup.Leases. Moves and Calls put the operations together as calls on one store.
--             Policies is `SitePolicyRepository`, Inventory is `InventoryRepository`, Tombstones is
--             `purge_tombstones`.
--   Policies  crates/g7mb-application/src/policies.rs: `SitePolicyService` (Policies.Service), its
--             validations and the text of the settings that SHA-256 digests.
--   Inventory crates/g7mb-application/src/inventory.rs: `InventoryService` (Inventory.Service), the
--             search for objects that nothing owns, and its checks of listed pages.
--   Lifecycle crates/g7mb-application/src/lifecycle.rs: `LifecyclePolicy`, `LifecycleService`.
--   Delivery  crates/g7mb-application/src/delivery.rs and delivery_security.rs: manifests of
--             derivatives, signed URLs and the authorities that they may lead to.
--   Worker    apps/g7mb-worker/src/lib.rs: `SourceValidationWorker`. Worker has its
--             policy and outcomes, Parts the worker and the interfaces that it calls, Runs is
--             `run_one`, Source is `validate_source`, Derivatives and Watermarks are what it makes
--             and puts on it; Watermarked, Published, Transformed and Validated follow the calls of
--             a validation that succeeds from world to world, Settled and Outcomes those of a run.
--   Auth      crates/g7mb-auth/src/lib.rs: the signatures of control requests and of media URLs.
--             HMAC-SHA256 and base64url are the record `Hmac`, with what the code relies on.
--   Base      what the others share: Boolean tests, lists, results, bytes, tables.
--   Examples  concrete inputs on which the properties are applied.
--
-- The service calls the repository and the provider through records (`UploadRepository`,
-- `ObjectStore`, `LifecycleRepository` and others); what is proved of it relies only on the laws
-- that a theorem names. An operation of the store takes the store and returns a result with the
-- new one; `async` and the pool are not seen, since each operation is one transaction, which
-- SQLite runs one at a time, and an error rolls it back. The statements of a transaction are
-- functions on lists of rows with their `WHERE` clauses, orders and limits written out, and with
-- the keys and checks of migrations/. Rows hold decoded values. Texts are lists of bytes. Times
-- are nanoseconds since 1970, and seconds in the database; numbers are natural numbers with the
-- ranges of u64 and i64 tested where the code tests them. New identifiers are arguments, and so is
-- the clock where the code takes it as one; where a service reads it, it is a function of the
-- world. SHA-256, the cache of manifests (`ManifestCache`) and the parser of URLs (`UrlParser`)
-- are parameters, and so are, for the worker, the file system (`Files`), the semaphores
-- (`ResourceGates`) and the `select!` of the processing and the heartbeat (`Runtime`). A Uuid is
-- its 128-bit number, and the text of one is a parameter (`UuidText`: 36 hexadecimal digits and
-- hyphens). Every loop is a structural recursion, so no fuel is used.
--
-- Not modelled: media probing and transcoding (bindings to libraries), the S3 adapter, the HTTP
-- routes, the sandbox and the child processes that the worker starts, configuration, backups,
-- telemetry and the host plugins (input and output around the parts above or other languages), and
-- the operational counters. The theorems on sequences of operations of the store do not range over
-- the purge of tombstones, which removes rows.
pub mod Base
pub mod Domain
pub mod Ports
pub mod Uploads
pub mod Policies
pub mod Inventory
pub mod Store
pub mod Lifecycle
pub mod Delivery
pub mod Worker
pub mod Auth
pub mod Examples
