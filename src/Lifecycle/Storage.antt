-- ===== src/Lifecycle/Storage.antt =====
-- What a cleanup run keeps: an upload is tombstoned only after its storage was removed.
use g7mediabooster.Base.{
  ℕ, ◌+◌, ◌-◌, ◌≡◌, refl, sym, ap, ◌∙◌, All, ◌&&◌, List, [], ◌∷◌, Result, ok, err, Bytes, codes,
  ok_or,
}
use g7mediabooster.Domain.{UploadId, created, eq_state, is_multipart}
use g7mediabooster.Domain.Keys.{ObjectKey}
use g7mediabooster.Ports.{OffsetDateTime, Duration, ObjectStoreError, AbortMultipartRequest}
use g7mediabooster.Ports.Effects.{lift}
use g7mediabooster.Ports.Keeping.{
  call-Kept, lift-Kept, after-Kept, answered-Kept, if-Kept, convert-Kept,
}
use g7mediabooster.Ports.Chains.{after-ok, converted-ok}
use g7mediabooster.Store.Cleanup.{CleanupCandidate}
use g7mediabooster.Lifecycle.{
  LifecycleService, LifecycleRunSummary, LifecycleRunError, try_duration, valid_identifier,
  abort_session, delete_derivatives, cleanup_storage, give_up, settle, clean_one, clean_all,
  summary_of, claim_batch, purge, run_claimed, run_once,
}

module _ {W : Type 0} (service : LifecycleService W) (Kept : W → Type 0)
    (IsRow : CleanupCandidate → Type 0) where
  open service use {raw_store, derivative_store, repository, now_utc}

  -- The calls of the providers, and of the repository but for `complete_cleanup`.
  pub record StorageLaws : Type 0 where
    pub aborts :
        (q : AbortMultipartRequest) (w : W) → Kept w → Kept (raw_store.abort_multipart q w).1
    pub deletes_derivative :
        (key : ObjectKey) (w : W) → Kept w → Kept (derivative_store.delete key w).1
    pub deletes_raw : (key : ObjectKey) (w : W) → Kept w → Kept (raw_store.delete key w).1
    pub claims :
        (owner : Bytes) (now created_before rejected_before : OffsetDateTime) (lease_for : Duration)
        (limit max_attempts : ℕ) (w : W)
        → Kept w
        → Kept
            (repository.claim_cleanup_batch owner now created_before rejected_before lease_for limit
              max_attempts w).1
    pub claims_rows :
        (owner : Bytes) (now created_before rejected_before : OffsetDateTime) (lease_for : Duration)
        (limit max_attempts : ℕ) (w : W) (candidates : List CleanupCandidate)
        → Kept w
        → (repository.claim_cleanup_batch owner now created_before rejected_before lease_for limit
            max_attempts w).0
          ≡ ok candidates
        → All IsRow candidates
    pub fails :
        (upload_id : UploadId) (owner : Bytes) (now retry_at : OffsetDateTime) (code : Bytes)
        (w : W)
        → Kept w
        → Kept (repository.fail_cleanup upload_id owner now retry_at code w).1
    pub purges :
        (before : OffsetDateTime) (limit : ℕ) (w : W)
        → Kept w
        → Kept (repository.purge_tombstones before limit w).1

  -- A tombstone keeps it in the world in which the storage of the candidate was just removed.
  abbrev pub TombstoneKeeps : Type 0
  TombstoneKeeps =
      (candidate : CleanupCandidate) (owner : Bytes) (now : OffsetDateTime) (w : W)
      → IsRow candidate
      → (cleanup_storage service candidate w).0 ≡ ok tt
      → Kept (cleanup_storage service candidate w).1
      → Kept
          (repository.complete_cleanup candidate.upload_id owner now
            (cleanup_storage service candidate w).1).1

  module _ (laws : StorageLaws) (tombstones : TombstoneKeeps) where
    open laws use {aborts, deletes_derivative, deletes_raw, claims, claims_rows, fails, purges}

    abort_session-Kept :
        (candidate : CleanupCandidate) (w : W) → Kept w → Kept (abort_session service candidate w).1
    unfolding abort_session
    abort_session-Kept candidate w k =
        if-Kept Kept (eq_state candidate.state created && is_multipart candidate.transfer) _ _ w
          (λ unconfirmed.
            lift-Kept Kept (ok_or candidate.multipart_upload_id (codes "CLEANUP_STATE_INVALID")) w _
              k
              λ id.
                let q : AbortMultipartRequest = record {
                  key = candidate.raw_object_key;
                  upload_id = id;
                } in
                convert-Kept Kept _ (raw_store.abort_multipart q w) (aborts q w k))
          (λ other. k)

    delete_derivatives-Kept :
        (keys : List ObjectKey) (w : W) → Kept w → Kept (delete_derivatives service keys w).1
    unfolding delete_derivatives
    delete_derivatives-Kept [] w k = k
    delete_derivatives-Kept (key ∷ keys) w k =
        let gone = deletes_derivative key w k in
        call-Kept Kept (λ (e : ObjectStoreError). codes "DERIVATIVE_DELETE_FAILED")
          (derivative_store.delete key w) _ gone λ u e. delete_derivatives-Kept keys _ gone

    cleanup_storage-Kept :
        (candidate : CleanupCandidate) (w : W)
        → Kept w
        → Kept (cleanup_storage service candidate w).1
    unfolding cleanup_storage
    cleanup_storage-Kept candidate w k =
        after-Kept Kept (abort_session service candidate w) _ (abort_session-Kept candidate w k)
          λ u v kept.
            after-Kept Kept (delete_derivatives service candidate.derivative_keys v) _
              (delete_derivatives-Kept candidate.derivative_keys v kept)
              λ a x gone.
                convert-Kept Kept _ (raw_store.delete candidate.raw_object_key x)
                  (deletes_raw candidate.raw_object_key x gone)

    settle-Kept :
        (owner : Bytes) (candidate : CleanupCandidate) (summary : LifecycleRunSummary)
        (r : Result Bytes (Unit {0})) (w : W)
        → Kept w
        → (r ≡ ok tt
            → (now : OffsetDateTime)
            → Kept (repository.complete_cleanup candidate.upload_id owner now w).1)
        → Kept (settle service owner candidate summary r w).1
    unfolding settle give_up
    settle-Kept owner candidate summary (ok u) w k t =
        let done_one = t refl (now_utc w) in
        call-Kept Kept LifecycleRunError.repository
          (repository.complete_cleanup candidate.upload_id owner (now_utc w) w) _ done_one
          λ a e. done_one
    settle-Kept owner candidate summary (err code) w k t =
        lift-Kept Kept (try_duration service.policy.retry_delay) w _ k λ delay.
          let failed = fails candidate.upload_id owner (now_utc w) (now_utc w + delay) code w k in
          call-Kept Kept LifecycleRunError.repository
            (repository.fail_cleanup candidate.upload_id owner (now_utc w) (now_utc w + delay) code
              w)
            _ failed λ a e. failed

    clean_all-Kept :
        (owner : Bytes) (candidates : List CleanupCandidate) (summary : LifecycleRunSummary) (w : W)
        → All IsRow candidates
        → Kept w
        → Kept (clean_all service owner candidates summary w).1
    unfolding clean_all clean_one
    clean_all-Kept owner [] summary w rows k = k
    clean_all-Kept owner (c ∷ cs) summary w (row, rows) k =
        let storage = cleanup_storage service c w in
        let gone = cleanup_storage-Kept c w k in
        after-Kept Kept (settle service owner c summary storage.0 storage.1) _
          (settle-Kept owner c summary storage.0 storage.1 gone
            λ removed now. tombstones c owner now w row removed gone)
          λ next v kept. clean_all-Kept owner cs next v rows kept

    claim_batch-Kept : (owner : Bytes) (w : W) → Kept w → Kept (claim_batch service owner w).1
    unfolding claim_batch
    claim_batch-Kept owner w k =
        lift-Kept Kept (try_duration service.policy.created_reservation_ttl) w _ k λ ttl.
          lift-Kept Kept (try_duration service.policy.rejected_source_retention) w _ k
            λ retention. convert-Kept Kept _ _ (claims owner (now_utc w) _ _ _ _ _ w k)

    claim_batch-rows :
        (owner : Bytes) (w : W) (candidates : List CleanupCandidate)
        → Kept w
        → (claim_batch service owner w).0 ≡ ok candidates
        → All IsRow candidates
    unfolding claim_batch
    claim_batch-rows owner w candidates k h =
        let (ttl, e1, n1) =
          after-ok (lift (try_duration service.policy.created_reservation_ttl) w) _ h in
        let h1 = ap (λ p. p.0) (sym n1) ∙ h in
        let (retention, e2, n2) =
          after-ok (lift (try_duration service.policy.rejected_source_retention) w) _ h1 in
        let h2 = ap (λ p. p.0) (sym n2) ∙ h1 in
        claims_rows owner (now_utc w) _ _ _ _ _ w candidates k
          (converted-ok LifecycleRunError.repository _ h2)

    purge-Kept : (summary : LifecycleRunSummary) (w : W) → Kept w → Kept (purge service summary w).1
    unfolding purge
    purge-Kept summary w k =
        lift-Kept Kept (try_duration service.policy.tombstone_retention) w _ k λ retention.
          let purged =
            purges (now_utc w - retention) service.policy.tombstone_purge_batch_size w k in
          call-Kept Kept LifecycleRunError.repository
            (repository.purge_tombstones (now_utc w - retention)
              service.policy.tombstone_purge_batch_size w)
            _ purged λ a e. purged

    -- What holds of the world, and is kept by the calls of the providers and of the repository but
    -- for `complete_cleanup`, holds after a cleanup run, whatever its result, if it is also kept by
    -- a `complete_cleanup` of a claimed candidate in a world in which its storage was just removed
    -- without a failure: no other upload is tombstoned. A property of the claimed candidates may be
    -- chosen for this.
    pub tombstones_follow_storage :
        (owner : Bytes) (w : W) → Kept w → Kept (run_once service owner w).1
    unfolding run_once run_claimed
    tombstones_follow_storage owner w k =
        if-Kept Kept (valid_identifier owner 128) _ _ w
          (λ valid.
            let claimed = claim_batch-Kept owner w k in
            answered-Kept Kept (claim_batch service owner w) _ claimed λ candidates e.
              let v = (claim_batch service owner w).1 in
              after-Kept Kept (clean_all service owner candidates (summary_of service candidates) v)
                _
                (clean_all-Kept owner candidates (summary_of service candidates) v
                  (claim_batch-rows owner w candidates k e) claimed)
                λ summary x cleaned. purge-Kept summary x cleaned)
          (λ invalid. k)
