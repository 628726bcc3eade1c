-- ===== src/Worker/Runs.antt =====
-- apps/g7mb-worker/src/lib.rs: `run_one`, which claims a job, processes it with a heartbeat, and
-- settles it.
use g7mediabooster.Base.{
  ◌+◌, not, Option, none, some, Result, ok, err, Bytes, codes, eq_bytes, leb, if◌then◌else◌,
  i64_max,
}
use g7mediabooster.Ports.{OffsetDateTime, Duration, as_secs}
use g7mediabooster.Ports.Effects.{Effect, ◌>>=◌, ◌>>◌, done, fail, lift, map_failure, at_time}
use g7mediabooster.Store.Queue.{LeasedProcessingJob}
use g7mediabooster.Uploads.RawKeys.{UuidText}
use g7mediabooster.Worker.{
  RunOutcome, idle, completed, outcome_of, WorkerError, invalid_policy, ProcessingFailure,
  permanent, transient, source_validation_preset,
}
use g7mediabooster.Worker.Parts.{SourceValidationWorker}
use g7mediabooster.Worker.Source.{validate_source}

-- `time::Duration::try_from`, whose seconds are an i64.
abbrev pub try_duration : Duration → Result WorkerError Duration
try_duration d = if leb (as_secs d) i64_max then ok d else err invalid_policy

module _ {W : Type 0} (uuid : UuidText) (worker : SourceValidationWorker W) where
  open worker use {queue, policy}

  abbrev pub complete_job : LeasedProcessingJob → Bytes → Effect W WorkerError (Unit {0})
  complete_job leased worker_id =
      map_failure WorkerError.queue
        (at_time worker.runtime.now_utc (queue.complete leased.job_id worker_id))

  abbrev pub reject_upload : LeasedProcessingJob → Bytes → Effect W WorkerError (Unit {0})
  reject_upload leased code =
      map_failure WorkerError.repository
        (at_time worker.runtime.now_utc (worker.repository.mark_rejected leased.job.upload_id code))

  -- The call of `fail` after a transient failure, at a time.
  unfoldable pub fail_at :
      LeasedProcessingJob → Bytes → Bytes → OffsetDateTime → Effect W WorkerError RunOutcome
  fail_at leased worker_id code now = do
    delay ← lift (try_duration policy.retry_delay)
    disposition ←
        map_failure WorkerError.queue
          (queue.fail leased.job_id worker_id now (now + delay) policy.max_attempts code)
    done (outcome_of disposition)

  abbrev pub retry_job : LeasedProcessingJob → Bytes → Bytes → Effect W WorkerError RunOutcome
  unfolding fail_at
  retry_job leased worker_id code = at_time worker.runtime.now_utc (fail_at leased worker_id code)

  -- The last attempt: the upload is rejected before the failure is recorded.
  unfoldable pub reject_and_retry :
      LeasedProcessingJob → Bytes → Bytes → Effect W WorkerError RunOutcome
  unfolding fail_at
  reject_and_retry leased worker_id code = do
    reject_upload leased code
    retry_job leased worker_id code

  -- The `match` on the result of the processing.
  unfoldable pub settle :
      LeasedProcessingJob
      → Bytes
      → Result ProcessingFailure (Unit {0})
      → Effect W WorkerError RunOutcome
  unfolding fail_at reject_and_retry
  settle leased worker_id (ok u) = do complete_job leased worker_id; done completed
  settle leased worker_id (err (permanent code)) = do
    reject_upload leased code
    complete_job leased worker_id
    done RunOutcome.rejected
  settle leased worker_id (err (transient code)) =
      if leb policy.max_attempts leased.attempts
      then reject_and_retry leased worker_id code
      else retry_job leased worker_id code
  settle leased worker_id (err (ProcessingFailure.operational code)) =
      fail (WorkerError.operational code)

  -- A job of another preset.
  unfoldable pub fail_unsupported : LeasedProcessingJob → Bytes → Effect W WorkerError RunOutcome
  fail_unsupported leased worker_id = do
    disposition ← map_failure WorkerError.queue (
        at_time worker.runtime.now_utc (λ now. at_time worker.runtime.now_utc (λ retry_at.
          queue.fail leased.job_id worker_id now retry_at 1 (codes "UNSUPPORTED_PRESET"))))
    done (outcome_of disposition)

  -- A tick of the heartbeat.
  abbrev pub renew_lease : LeasedProcessingJob → Bytes → Effect W WorkerError (Unit {0})
  renew_lease leased worker_id = do
    until ← map_failure WorkerError.queue (
        at_time worker.runtime.now_utc
          (λ now. queue.renew leased.job_id worker_id now policy.lease_for))
    done tt

  unfoldable pub process_job : LeasedProcessingJob → Bytes → Effect W WorkerError RunOutcome
  unfolding validate_source settle
  process_job leased worker_id = do
    result ←
        worker.runtime.with_heartbeat policy.heartbeat_every (renew_lease leased worker_id)
          (validate_source uuid worker leased.job.upload_id leased.job.site_policy_revision)
    settle leased worker_id result

  -- What the claim answered with.
  unfoldable pub run_claimed : Bytes → Option LeasedProcessingJob → Effect W WorkerError RunOutcome
  unfolding fail_unsupported process_job
  run_claimed worker_id none = done idle
  run_claimed worker_id (some leased) =
      if not (eq_bytes leased.job.preset_id source_validation_preset)
      then fail_unsupported leased worker_id
      else process_job leased worker_id

  unfoldable pub run_one : Bytes → Effect W WorkerError RunOutcome
  unfolding run_claimed
  run_one worker_id = do
    leased ←
        map_failure WorkerError.queue
          (at_time worker.runtime.now_utc (λ now. queue.claim_next worker_id now policy.lease_for))
    run_claimed worker_id leased
