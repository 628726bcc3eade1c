-- ===== src/Lifecycle.antt =====
-- crates/g7mb-application/src/lifecycle.rs: `LifecyclePolicy` and `LifecycleService`, which removes
-- the objects of expired and deleted uploads and then their rows. The world holds the clock.
pub mod Storage
pub mod Counts
use g7mediabooster.Base.{
  ℕ, ◌+◌, ◌-◌, ◌*◌, Bool, true, false, ◌&&◌, not, List, [], ◌∷◌, Option, none, some, Result, ok,
  err, ok_or, Bytes, codes, all, length, is_empty, leb, ltb, ◌==◌, within, if◌then◌else◌,
  identifier_byte, i64_max,
}
use g7mediabooster.Domain.{UploadId, created, eq_state, is_multipart}
use g7mediabooster.Domain.Keys.{ObjectKey}
use g7mediabooster.Ports.{
  OffsetDateTime, Duration, as_secs, from_secs, ObjectStore, ObjectStoreError,
}
use g7mediabooster.Ports.Effects.{
  Effect, after, ◌>>=◌, ◌>>◌, done, fail, lift, map_failure, answer, at_time,
}
use g7mediabooster.Store.Cleanup.{
  CleanupCandidate, DeletionRequestOutcome, DeletionRequestError, LifecycleRepositoryError,
}

pub record LifecyclePolicy : Type 0 where
  pub created_reservation_ttl : Duration
  pub rejected_source_retention : Duration
  pub lease_for : Duration
  pub retry_delay : Duration
  pub batch_size : ℕ
  pub max_attempts : ℕ
  pub tombstone_retention : Duration
  pub tombstone_purge_batch_size : ℕ

abbrev pub default_lifecycle_policy : LifecyclePolicy
default_lifecycle_policy = record {
  created_reservation_ttl = from_secs (24 * 60 * 60);
  rejected_source_retention = from_secs (7 * 24 * 60 * 60);
  lease_for = from_secs (5 * 60);
  retry_delay = from_secs 60;
  batch_size = 100;
  max_attempts = 10;
  tombstone_retention = from_secs (365 * 24 * 60 * 60);
  tombstone_purge_batch_size = 100;
}

-- `LifecyclePolicy::is_valid`.
unfoldable pub policy_is_valid : LifecyclePolicy → Bool
policy_is_valid p =
    not (p.created_reservation_ttl == 0)
    && leb p.created_reservation_ttl (from_secs (7 * 24 * 60 * 60))
    && not (p.rejected_source_retention == 0)
    && leb p.rejected_source_retention (from_secs (90 * 24 * 60 * 60))
    && not (p.lease_for == 0)
    && leb p.lease_for (from_secs (60 * 60))
    && not (p.retry_delay == 0)
    && leb p.retry_delay (from_secs (24 * 60 * 60))
    && within 1 100 p.batch_size
    && within 1 100 p.max_attempts
    && leb (from_secs (30 * 24 * 60 * 60)) p.tombstone_retention
    && leb p.tombstone_retention (from_secs (10 * 365 * 24 * 60 * 60))
    && within 1 1000 p.tombstone_purge_batch_size

pub record LifecycleRunSummary : Type 0 where
  pub claimed : ℕ
  pub completed : ℕ
  pub failed : ℕ
  pub dead_lettered : ℕ
  pub tombstones_purged : ℕ

pub data LifecycleRunError : Type 0 where
  invalid_owner invalid_duration : LifecycleRunError
  repository : LifecycleRepositoryError → LifecycleRunError

-- `trait LifecycleRepository`.
pub record LifecycleRepository (W : Type 0) : Type 0 where
  pub request_deletion :
      Bytes → UploadId → OffsetDateTime → Effect W DeletionRequestError DeletionRequestOutcome
  pub claim_cleanup_batch :
      Bytes
      → OffsetDateTime
      → OffsetDateTime
      → OffsetDateTime
      → Duration
      → ℕ
      → ℕ
      → Effect W LifecycleRepositoryError (List CleanupCandidate)
  pub complete_cleanup :
      UploadId → Bytes → OffsetDateTime → Effect W LifecycleRepositoryError (Unit {0})
  pub fail_cleanup :
      UploadId
      → Bytes
      → OffsetDateTime
      → OffsetDateTime
      → Bytes
      → Effect W LifecycleRepositoryError (Unit {0})
  pub purge_tombstones : OffsetDateTime → ℕ → Effect W LifecycleRepositoryError ℕ

pub record LifecycleService (W : Type 0) : Type 0 where
  pub raw_store : ObjectStore W
  pub derivative_store : ObjectStore W
  pub repository : LifecycleRepository W
  pub policy : LifecyclePolicy
  pub now_utc : W → OffsetDateTime

-- `LifecycleService::new`.
unfoldable pub new_service :
    {W : Type 0} → LifecycleService W → Result LifecycleRunError (LifecycleService W)
unfolding policy_is_valid
new_service service = if policy_is_valid service.policy then ok service else err invalid_duration

unfoldable pub valid_identifier : Bytes → ℕ → Bool
valid_identifier value max_length =
    not (is_empty value) && leb (length value) max_length && all identifier_byte value

-- `time::Duration::try_from`, whose seconds are an i64.
abbrev pub try_duration : Duration → Result LifecycleRunError Duration
try_duration d = if leb (as_secs d) i64_max then ok d else err invalid_duration

abbrev pub one_completed : LifecycleRunSummary → LifecycleRunSummary
one_completed summary = record summary { completed = summary.completed + 1 }

abbrev pub one_failed : Bool → LifecycleRunSummary → LifecycleRunSummary
one_failed is_last summary = record summary {
  failed = summary.failed + 1;
  dead_lettered = summary.dead_lettered + (if is_last then 1 else 0);
}

module _ {W : Type 0} (service : LifecycleService W) where
  open service use {raw_store, derivative_store, policy, now_utc}

  -- `LifecycleService::request_deletion`.
  unfoldable pub request_deletion :
      Bytes → UploadId → Effect W DeletionRequestError DeletionRequestOutcome
  unfolding valid_identifier
  request_deletion tenant_id upload_id =
      if valid_identifier tenant_id 64
      then at_time now_utc (service.repository.request_deletion tenant_id upload_id)
      else fail DeletionRequestError.invalid_tenant

  -- The session of an upload whose bytes were never confirmed.
  unfoldable pub abort_session : CleanupCandidate → Effect W Bytes (Unit {0})
  abort_session candidate =
      if eq_state candidate.state created && is_multipart candidate.transfer
      then (do
        provider_upload_id ←
            lift (ok_or candidate.multipart_upload_id (codes "CLEANUP_STATE_INVALID"))
        map_failure (λ (e : ObjectStoreError). codes "MULTIPART_ABORT_FAILED")
            (raw_store.abort_multipart
              (record { key = candidate.raw_object_key; upload_id = provider_upload_id })))
      else done tt

  unfoldable pub delete_derivatives : List ObjectKey → Effect W Bytes (Unit {0})
  delete_derivatives [] = done tt
  delete_derivatives (key ∷ keys) = do
    map_failure (λ (e : ObjectStoreError). codes "DERIVATIVE_DELETE_FAILED")
        (derivative_store.delete key)
    delete_derivatives keys

  -- `cleanup_storage`: the failure is an error code.
  unfoldable pub cleanup_storage : CleanupCandidate → Effect W Bytes (Unit {0})
  unfolding abort_session delete_derivatives
  cleanup_storage candidate = do
    abort_session candidate
    delete_derivatives candidate.derivative_keys
    map_failure (λ (e : ObjectStoreError). codes "RAW_DELETE_FAILED")
        (raw_store.delete candidate.raw_object_key)

  -- The arm `Err(error_code)`, at a time.
  unfoldable pub give_up :
      Bytes
      → CleanupCandidate
      → LifecycleRunSummary
      → Bytes
      → OffsetDateTime
      → Effect W LifecycleRunError LifecycleRunSummary
  give_up owner candidate summary error_code failed_at = do
    retry_delay ← lift (try_duration policy.retry_delay)
    map_failure LifecycleRunError.repository (
        service.repository.fail_cleanup candidate.upload_id owner failed_at
          (failed_at + retry_delay) error_code)
    done (one_failed (leb policy.max_attempts candidate.attempts) summary)

  -- The `match` on the cleaned storage.
  unfoldable pub settle :
      Bytes
      → CleanupCandidate
      → LifecycleRunSummary
      → Result Bytes (Unit {0})
      → Effect W LifecycleRunError LifecycleRunSummary
  unfolding give_up
  settle owner candidate summary (ok u) = do
    map_failure LifecycleRunError.repository
        (at_time now_utc (service.repository.complete_cleanup candidate.upload_id owner))
    done (one_completed summary)
  settle owner candidate summary (err error_code) =
      at_time now_utc (give_up owner candidate summary error_code)

  unfoldable pub clean_one :
      Bytes
      → CleanupCandidate
      → LifecycleRunSummary
      → Effect W LifecycleRunError LifecycleRunSummary
  unfolding settle cleanup_storage
  clean_one owner candidate summary = do
    cleaned ← answer (cleanup_storage candidate)
    settle owner candidate summary cleaned

  -- The loop over the candidates.
  unfoldable pub clean_all :
      Bytes
      → List CleanupCandidate
      → LifecycleRunSummary
      → Effect W LifecycleRunError LifecycleRunSummary
  unfolding clean_one
  clean_all owner [] summary = done summary
  clean_all owner (candidate ∷ candidates) summary = do
    next ← clean_one owner candidate summary
    clean_all owner candidates next

  abbrev pub summary_of : List CleanupCandidate → LifecycleRunSummary
  summary_of candidates = record {
    claimed = length candidates;
    completed = 0;
    failed = 0;
    dead_lettered = 0;
    tombstones_purged = 0;
  }

  unfoldable pub claim_batch : Bytes → Effect W LifecycleRunError (List CleanupCandidate)
  claim_batch owner = at_time now_utc (λ now. (do
    created_ttl ← lift (try_duration policy.created_reservation_ttl)
    rejected_retention ← lift (try_duration policy.rejected_source_retention)
    map_failure LifecycleRunError.repository (
        service.repository.claim_cleanup_batch owner now (now - created_ttl)
          (now - rejected_retention) policy.lease_for policy.batch_size policy.max_attempts)))

  unfoldable pub purge : LifecycleRunSummary → Effect W LifecycleRunError LifecycleRunSummary
  purge summary = do
    tombstone_retention ← lift (try_duration policy.tombstone_retention)
    purged ← map_failure LifecycleRunError.repository (
        at_time now_utc (λ now.
          service.repository.purge_tombstones (now - tombstone_retention)
            policy.tombstone_purge_batch_size))
    done (record summary { tombstones_purged = purged })

  -- `run_once` with a valid owner.
  unfoldable pub run_claimed : Bytes → Effect W LifecycleRunError LifecycleRunSummary
  unfolding claim_batch clean_all purge
  run_claimed owner = do
    candidates ← claim_batch owner
    summary ← clean_all owner candidates (summary_of candidates)
    purge summary

  unfoldable pub run_once : Bytes → Effect W LifecycleRunError LifecycleRunSummary
  unfolding valid_identifier run_claimed
  run_once owner = if valid_identifier owner 128 then run_claimed owner else fail invalid_owner
