-- ===== src/Inventory/Pruning.antt =====
-- What a run of the inventory keeps: an object is deleted only after its key was found unknown.
use g7mediabooster.Base.{
  ℕ, zero, suc, ◌≡◌, refl, sym, ap, ◌∙◌, false, List, [], ◌∷◌, Option, none, some, Result, ok, err,
  Bytes, codes,
}
use g7mediabooster.Domain.Keys.{ObjectKey}
use g7mediabooster.Ports.{OffsetDateTime, ListObjectsRequest, ListedObjectsPage, ObjectStoreError}
use g7mediabooster.Ports.Effects.{Effect}
use g7mediabooster.Ports.Keeping.{call-Kept, lift-Kept, after-Kept, if-Kept}
use g7mediabooster.Inventory.{
  StorageNamespace, raw, derivative, prefix, InventoryObject, OrphanCandidate, InventoryMode, audit,
  prune, InventoryRunSummary, InventoryRunError, validate_cursor, validate_page, empty_summary,
}
use g7mediabooster.Inventory.Service.{
  InventoryService, try_duration, store_of, settle, forget, delete_orphan, prune_one, prune_all,
  pruned, run_page, valid_objects, continue_from, scan_pages, scan_namespace, run_at, run_once,
}

module _ {W : Type 0} (service : InventoryService W) (Kept : W → Type 0) where
  open service use {repository, now_utc}

  -- Listing and the repository's own operations keep it.
  pub record KeptLaws : Type 0 where
    pub lists :
        (namespace : StorageNamespace) (q : ListObjectsRequest) (w : W)
        → Kept w
        → Kept ((store_of service namespace).list_objects q w).1
    pub reads :
        (namespace : StorageNamespace) (w : W)
        → Kept w
        → Kept (repository.inventory_cursor namespace w).1
    pub reconciles :
        (namespace : StorageNamespace) (objects : List InventoryObject)
        (now eligible_before : OffsetDateTime) (w : W)
        → Kept w
        → Kept (repository.reconcile_inventory_page namespace objects now eligible_before w).1
    pub checks :
        (namespace : StorageNamespace) (key : ObjectKey) (w : W)
        → Kept w
        → Kept (repository.is_inventory_key_known namespace key w).1
    pub forgets :
        (namespace : StorageNamespace) (key : ObjectKey) (w : W)
        → Kept w
        → Kept (repository.forget_orphan namespace key w).1
    pub completes :
        (namespace : StorageNamespace) (key : ObjectKey) (now : OffsetDateTime) (w : W)
        → Kept w
        → Kept (repository.complete_orphan_deletion namespace key now w).1
    pub fails :
        (namespace : StorageNamespace) (key : ObjectKey) (code : Bytes) (now : OffsetDateTime)
        (w : W)
        → Kept w
        → Kept (repository.fail_orphan_deletion namespace key code now w).1
    pub saves :
        (namespace : StorageNamespace) (next : Option Bytes) (now : OffsetDateTime) (w : W)
        → Kept w
        → Kept (repository.save_inventory_cursor namespace next now w).1

  -- The deletion of an object keeps it in the world in which its key was just found unknown.
  abbrev pub DeletionKeeps : Type 0
  DeletionKeeps =
      (namespace : StorageNamespace) (key : ObjectKey) (w : W)
      → (repository.is_inventory_key_known namespace key w).0 ≡ ok false
      → Kept (repository.is_inventory_key_known namespace key w).1
      → Kept
          ((store_of service namespace).delete key
            (repository.is_inventory_key_known namespace key w).1).1

  module _ (laws : KeptLaws) where
    open laws use {lists, reads, reconciles, checks, forgets, completes, fails, saves}

    settle-Kept :
        (namespace : StorageNamespace) (key : ObjectKey) (summary : InventoryRunSummary)
        (r : Result ObjectStoreError (Unit {0})) (w : W)
        → Kept w
        → Kept (settle service namespace key summary r w).1
    unfolding settle
    settle-Kept namespace key summary (ok u) w k =
        let kept = completes namespace key (now_utc w) w k in
        call-Kept Kept InventoryRunError.repository
          (repository.complete_orphan_deletion namespace key (now_utc w) w) _ kept (λ a e. kept)
    settle-Kept namespace key summary (err x) w k =
        let kept = fails namespace key (codes "PROVIDER_DELETE_FAILED") (now_utc w) w k in
        call-Kept Kept InventoryRunError.repository
          (repository.fail_orphan_deletion namespace key (codes "PROVIDER_DELETE_FAILED")
            (now_utc w) w)
          _ kept (λ a e. kept)

    forget-Kept :
        (namespace : StorageNamespace) (key : ObjectKey) (summary : InventoryRunSummary) (w : W)
        → Kept w
        → Kept (forget service namespace key summary w).1
    unfolding forget
    forget-Kept namespace key summary w k =
        let kept = forgets namespace key w k in
        call-Kept Kept InventoryRunError.repository (repository.forget_orphan namespace key w) _
          kept (λ a e. kept)

    delete_orphan-Kept :
        (namespace : StorageNamespace) (key : ObjectKey) (summary : InventoryRunSummary) (w : W)
        → Kept ((store_of service namespace).delete key w).1
        → Kept (delete_orphan service namespace key summary w).1
    unfolding delete_orphan
    delete_orphan-Kept namespace key summary w k =
        settle-Kept namespace key summary ((store_of service namespace).delete key w).0
          ((store_of service namespace).delete key w).1 k

    prune_one-Kept :
        (namespace : StorageNamespace) (key : ObjectKey) (summary : InventoryRunSummary) (w : W)
        → DeletionKeeps
        → Kept w
        → Kept (prune_one service namespace key summary w).1
    unfolding prune_one
    prune_one-Kept namespace key summary w deletes k =
        let check = repository.is_inventory_key_known namespace key w in
        let asked = checks namespace key w k in
        call-Kept Kept InventoryRunError.repository check _ asked λ known e.
          if-Kept Kept known (forget service namespace key summary)
            (delete_orphan service namespace key summary) check.1
            (λ hit. forget-Kept namespace key summary check.1 asked)
            (λ unknown.
              delete_orphan-Kept namespace key summary check.1
                (deletes namespace key w (e ∙ ap ok unknown) asked))

    prune_all-Kept :
        (namespace : StorageNamespace) (candidates : List OrphanCandidate)
        (summary : InventoryRunSummary) (w : W)
        → DeletionKeeps
        → Kept w
        → Kept (prune_all service namespace candidates summary w).1
    unfolding prune_all
    prune_all-Kept namespace [] summary w deletes k = k
    prune_all-Kept namespace (c ∷ cs) summary w deletes k =
        after-Kept Kept (prune_one service namespace c.key summary w) _
          (prune_one-Kept namespace c.key summary w deletes k)
          λ next v kept. prune_all-Kept namespace cs next v deletes kept

    module _ (mode : InventoryMode) (deletes : mode ≡ prune → DeletionKeeps) where
      pruned-Kept :
          (m : InventoryMode) (namespace : StorageNamespace) (candidates : List OrphanCandidate)
          (summary : InventoryRunSummary) (w : W)
          → m ≡ mode
          → Kept w
          → Kept (pruned service m namespace candidates summary w).1
      unfolding pruned
      pruned-Kept audit namespace candidates summary w e k = k
      pruned-Kept prune namespace candidates summary w e k =
          prune_all-Kept namespace candidates summary w (deletes (sym e)) k

      run_page-Kept :
          (namespace : StorageNamespace) (now eligible_before : OffsetDateTime)
          (page : ListedObjectsPage) (summary : InventoryRunSummary) (w : W)
          → Kept w
          → Kept (run_page service mode namespace now eligible_before page summary w).1
      unfolding run_page
      run_page-Kept namespace now eligible_before page summary w k =
          let objects = (valid_objects namespace page.objects).0 in
          let reconciled = reconciles namespace objects now eligible_before w k in
          call-Kept Kept InventoryRunError.repository
            (repository.reconcile_inventory_page namespace objects now eligible_before w) _
            reconciled
            λ r e.
              after-Kept Kept (pruned service mode namespace r.eligible _ _) _
                (pruned-Kept mode namespace r.eligible _ _ refl reconciled)
                λ next v kept.
                  let saved = saves namespace page.next_start_after (now_utc v) v kept in
                  call-Kept Kept InventoryRunError.repository
                    (repository.save_inventory_cursor namespace page.next_start_after (now_utc v) v)
                    _ saved (λ a x. saved)

      continue_from-Kept :
          (cursor : Option Bytes) (next : InventoryRunSummary)
          (rest : Bytes → Effect W InventoryRunError InventoryRunSummary) (w : W)
          → Kept w
          → ((key : Bytes) → Kept (rest key w).1)
          → Kept (continue_from service cursor next rest w).1
      continue_from-Kept none next rest w k h = k
      continue_from-Kept (some key) next rest w k h = h key

      scan_pages-Kept :
          (namespace : StorageNamespace) (now eligible_before : OffsetDateTime) (pages : ℕ)
          (cursor : Option Bytes) (summary : InventoryRunSummary) (w : W)
          → Kept w
          → Kept (scan_pages service mode namespace now eligible_before pages cursor summary w).1
      unfolding scan_pages
      scan_pages-Kept namespace now eligible_before zero cursor summary w k = k
      scan_pages-Kept namespace now eligible_before (suc pages) cursor summary w k =
          let q : ListObjectsRequest = record {
            prefix = prefix namespace;
            start_after = cursor;
            max_keys = service.policy.page_size;
          } in
          let listed = lists namespace q w k in
          let v : W = ((store_of service namespace).list_objects q w).1 in
          call-Kept Kept InventoryRunError.object_store
            ((store_of service namespace).list_objects q w) _ listed
            λ page e.
              lift-Kept Kept (validate_page namespace cursor page.objects page.next_start_after) v _
                listed
                λ valid.
                  after-Kept Kept
                    (run_page service mode namespace now eligible_before page summary v) _
                    (run_page-Kept namespace now eligible_before page summary v listed)
                    λ next u kept. continue_from-Kept page.next_start_after next _ u kept λ key.
                      scan_pages-Kept namespace now eligible_before pages (some key) next u kept

      scan_namespace-Kept :
          (namespace : StorageNamespace) (now eligible_before : OffsetDateTime)
          (summary : InventoryRunSummary) (w : W)
          → Kept w
          → Kept (scan_namespace service mode namespace now eligible_before summary w).1
      unfolding scan_namespace
      scan_namespace-Kept namespace now eligible_before summary w k =
          let read = reads namespace w k in
          call-Kept Kept InventoryRunError.repository (repository.inventory_cursor namespace w) _
            read
            λ cursor e. lift-Kept Kept (validate_cursor namespace cursor) _ _ read λ valid.
              scan_pages-Kept namespace now eligible_before service.policy.max_pages_per_namespace
                cursor summary _ read

      -- What holds of the world, and is kept by listing and by the repository's operations, holds
      -- after a run of the inventory, whatever its result. In prune mode it must also be kept by
      -- the deletion of an object in a world in which its key was just found unknown: no other
      -- object is deleted, and in audit mode none.
      pub only_unknown_is_deleted : (w : W) → Kept w → Kept (run_once service mode w).1
      unfolding run_once run_at
      only_unknown_is_deleted w k =
          lift-Kept Kept (try_duration service.policy.orphan_grace_period) w _ k λ grace.
            after-Kept Kept (scan_namespace service mode raw (now_utc w) _ empty_summary w) _
              (scan_namespace-Kept raw (now_utc w) _ empty_summary w k)
              λ first v kept. scan_namespace-Kept derivative (now_utc w) _ first v kept
