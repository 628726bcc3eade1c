-- ===== src/Inventory/Service.antt =====
-- crates/g7mb-application/src/inventory.rs: `InventoryService`, over the state of the world, which
-- holds the clock.
use g7mediabooster.Base.{
  ℕ, zero, suc, ◌+◌, ◌-◌, Bool, List, [], ◌∷◌, Option, none, some, Result, ok, err, Bytes, codes,
  length, leb, i64_max, if◌then◌else◌,
}
use g7mediabooster.Domain.Keys.{ObjectKey, ObjectKeyError, new}
use g7mediabooster.Ports.{
  OffsetDateTime, Duration, as_secs, ListedObject, ListedObjectsPage, ObjectStore, ObjectStoreError,
}
use g7mediabooster.Ports.Effects.{Effect, ◌>>=◌, ◌>>◌, done, lift, map_failure, answer, at_time}
use g7mediabooster.Inventory.{
  StorageNamespace, raw, derivative, prefix, InventoryObject, OrphanCandidate,
  InventoryReconcileResult, InventoryRepositoryError, InventoryPolicy, policy_is_valid,
  InventoryMode, audit, prune, InventoryRunSummary, empty_summary, InventoryRunError,
  invalid_policy, invalid_duration, starts_with, validate_cursor, validate_page,
}

pub record InventoryRepository (W : Type 0) : Type 0 where
  pub inventory_cursor : StorageNamespace → Effect W InventoryRepositoryError (Option Bytes)
  pub reconcile_inventory_page :
      StorageNamespace
      → List InventoryObject
      → OffsetDateTime
      → OffsetDateTime
      → Effect W InventoryRepositoryError InventoryReconcileResult
  pub is_inventory_key_known : StorageNamespace → ObjectKey → Effect W InventoryRepositoryError Bool
  pub forget_orphan : StorageNamespace → ObjectKey → Effect W InventoryRepositoryError (Unit {0})
  pub complete_orphan_deletion :
      StorageNamespace → ObjectKey → OffsetDateTime → Effect W InventoryRepositoryError (Unit {0})
  pub fail_orphan_deletion :
      StorageNamespace
      → ObjectKey
      → Bytes
      → OffsetDateTime
      → Effect W InventoryRepositoryError (Unit {0})
  pub save_inventory_cursor :
      StorageNamespace
      → Option Bytes
      → OffsetDateTime
      → Effect W InventoryRepositoryError (Unit {0})

pub record InventoryService (W : Type 0) : Type 0 where
  pub raw_store : ObjectStore W
  pub derivative_store : ObjectStore W
  pub repository : InventoryRepository W
  pub policy : InventoryPolicy
  pub now_utc : W → OffsetDateTime

-- `time::Duration::try_from`, whose seconds are an i64.
abbrev pub try_duration : Duration → Result InventoryRunError Duration
try_duration d = if leb (as_secs d) i64_max then ok d else err invalid_duration

-- `InventoryService::new`.
unfoldable pub new_service :
    {W : Type 0} → InventoryService W → Result InventoryRunError (InventoryService W)
unfolding policy_is_valid
new_service service = if policy_is_valid service.policy then ok service else err invalid_policy

-- One listed object: valid keys of the namespace are kept, others are counted.
abbrev pub sorted_out :
    StorageNamespace
    → ListedObject
    → Result ObjectKeyError ObjectKey
    → List InventoryObject × ℕ
    → List InventoryObject × ℕ
sorted_out namespace object (ok key) (valid, invalid) =
    if starts_with (prefix namespace) object.key
    then (record { key = key; content_length = object.content_length } ∷ valid, invalid)
    else (valid, invalid + 1)
sorted_out namespace object (err e) (valid, invalid) = (valid, invalid + 1)

-- The loop over `page.objects`.
unfoldable pub valid_objects : StorageNamespace → List ListedObject → List InventoryObject × ℕ
valid_objects namespace [] = ([], 0)
valid_objects namespace (object ∷ objects) =
    sorted_out namespace object (new object.key) (valid_objects namespace objects)

module _ {W : Type 0} (service : InventoryService W) where
  open service use {raw_store, derivative_store, repository, policy, now_utc}

  abbrev pub store_of : StorageNamespace → ObjectStore W
  store_of raw = raw_store
  store_of derivative = derivative_store

  -- The `match` on the answer of `delete`.
  unfoldable pub settle :
      StorageNamespace
      → ObjectKey
      → InventoryRunSummary
      → Result ObjectStoreError (Unit {0})
      → Effect W InventoryRunError InventoryRunSummary
  settle namespace key summary (ok u) = do
    map_failure InventoryRunError.repository
        (at_time now_utc (repository.complete_orphan_deletion namespace key))
    done (record summary { deleted = summary.deleted + 1 })
  settle namespace key summary (err e) = do
    map_failure InventoryRunError.repository (
        at_time now_utc
          (repository.fail_orphan_deletion namespace key (codes "PROVIDER_DELETE_FAILED")))
    done (record summary { delete_failed = summary.delete_failed + 1 })

  -- A candidate that the repository knows again.
  unfoldable pub forget :
      StorageNamespace
      → ObjectKey
      → InventoryRunSummary
      → Effect W InventoryRunError InventoryRunSummary
  forget namespace key summary = do
    map_failure InventoryRunError.repository (repository.forget_orphan namespace key)
    done (record summary { known = summary.known + 1; eligible = summary.eligible - 1 })

  unfoldable pub delete_orphan :
      StorageNamespace
      → ObjectKey
      → InventoryRunSummary
      → Effect W InventoryRunError InventoryRunSummary
  unfolding settle
  delete_orphan namespace key summary = do
    deletion ← answer ((store_of namespace).delete key)
    settle namespace key summary deletion

  -- One candidate in prune mode.
  unfoldable pub prune_one :
      StorageNamespace
      → ObjectKey
      → InventoryRunSummary
      → Effect W InventoryRunError InventoryRunSummary
  unfolding forget delete_orphan
  prune_one namespace key summary = do
    known ←
        map_failure InventoryRunError.repository (repository.is_inventory_key_known namespace key)
    if known then forget namespace key summary else delete_orphan namespace key summary

  unfoldable pub prune_all :
      StorageNamespace
      → List OrphanCandidate
      → InventoryRunSummary
      → Effect W InventoryRunError InventoryRunSummary
  prune_all namespace [] summary = done summary
  prune_all namespace (candidate ∷ candidates) summary = do
    next ← prune_one namespace candidate.key summary
    prune_all namespace candidates next

  -- `if mode == Prune { for candidate in reconciled.eligible … }`.
  unfoldable pub pruned :
      InventoryMode
      → StorageNamespace
      → List OrphanCandidate
      → InventoryRunSummary
      → Effect W InventoryRunError InventoryRunSummary
  unfolding prune_all
  pruned audit namespace eligible summary = done summary
  pruned prune namespace eligible summary = prune_all namespace eligible summary

  -- What a page adds to the summary before its objects are reconciled, and after.
  abbrev pub page_listed : ListedObjectsPage → ℕ → InventoryRunSummary → InventoryRunSummary
  page_listed page invalid summary = record summary {
    pages = summary.pages + 1;
    listed = summary.listed + length page.objects;
    invalid_keys = summary.invalid_keys + invalid;
  }

  abbrev pub page_reconciled : InventoryReconcileResult → InventoryRunSummary → InventoryRunSummary
  page_reconciled reconciled summary = record summary {
    known = summary.known + reconciled.known;
    suspected = summary.suspected + reconciled.suspected;
    eligible = summary.eligible + length reconciled.eligible;
  }

  -- A listed page that was validated.
  unfoldable pub run_page :
      InventoryMode
      → StorageNamespace
      → OffsetDateTime
      → OffsetDateTime
      → ListedObjectsPage
      → InventoryRunSummary
      → Effect W InventoryRunError InventoryRunSummary
  unfolding valid_objects pruned
  run_page mode namespace now eligible_before page summary = do
    reconciled ← map_failure InventoryRunError.repository (
        repository.reconcile_inventory_page namespace (valid_objects namespace page.objects).0 now
          eligible_before)
    done_page ← pruned mode namespace reconciled.eligible (
        page_reconciled reconciled
          (page_listed page (valid_objects namespace page.objects).1 summary))
    map_failure InventoryRunError.repository
        (at_time now_utc (repository.save_inventory_cursor namespace page.next_start_after))
    done done_page

  -- The end of a turn: no cursor breaks the loop.
  abbrev pub continue_from :
      Option Bytes
      → InventoryRunSummary
      → (Bytes → Effect W InventoryRunError InventoryRunSummary)
      → Effect W InventoryRunError InventoryRunSummary
  continue_from none next rest =
      done (record next { completed_namespaces = next.completed_namespaces + 1 })
  continue_from (some key) next rest = rest key

  -- The loop over the pages of a namespace, of which so many are left.
  unfoldable pub scan_pages :
      InventoryMode
      → StorageNamespace
      → OffsetDateTime
      → OffsetDateTime
      → ℕ
      → Option Bytes
      → InventoryRunSummary
      → Effect W InventoryRunError InventoryRunSummary
  unfolding run_page validate_page
  scan_pages mode namespace now eligible_before zero cursor summary = done summary
  scan_pages mode namespace now eligible_before (suc pages) cursor summary = do
    page ← map_failure InventoryRunError.object_store (
        (store_of namespace).list_objects
          (record { prefix = prefix namespace; start_after = cursor; max_keys = policy.page_size }))
    lift (validate_page namespace cursor page.objects page.next_start_after)
    next ← run_page mode namespace now eligible_before page summary
    continue_from page.next_start_after next
        (λ key. scan_pages mode namespace now eligible_before pages (some key) next)

  unfoldable pub scan_namespace :
      InventoryMode
      → StorageNamespace
      → OffsetDateTime
      → OffsetDateTime
      → InventoryRunSummary
      → Effect W InventoryRunError InventoryRunSummary
  unfolding scan_pages validate_cursor
  scan_namespace mode namespace now eligible_before summary = do
    cursor ← map_failure InventoryRunError.repository (repository.inventory_cursor namespace)
    lift (validate_cursor namespace cursor)
    scan_pages mode namespace now eligible_before policy.max_pages_per_namespace cursor summary

  -- `run_once` at a time.
  unfoldable pub run_at :
      InventoryMode → OffsetDateTime → Effect W InventoryRunError InventoryRunSummary
  unfolding scan_namespace
  run_at mode now = do
    grace ← lift (try_duration policy.orphan_grace_period)
    first ← scan_namespace mode raw now (now - grace) empty_summary
    scan_namespace mode derivative now (now - grace) first

  unfoldable pub run_once : InventoryMode → Effect W InventoryRunError InventoryRunSummary
  unfolding run_at
  run_once mode = at_time now_utc (run_at mode)
