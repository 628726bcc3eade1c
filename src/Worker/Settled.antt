-- ===== src/Worker/Settled.antt =====
-- What the settlement of a result says about the job and its upload.
use g7mediabooster.Base.{
  ℕ, ◌≤◌, ◌+◌, ◌≡◌, refl, sym, ap, ◌∙◌, subst, ◌⊎◌, inl, inr, Result, ok, err, Bytes, leb, arith,
}
use g7mediabooster.Ports.Effects.{◌>>◌, done, at_time}
use g7mediabooster.Ports.Chains.{Ran}
use g7mediabooster.Ports.Ends.{called-end, lifted-end, branched, ended, same_end}
use g7mediabooster.Store.Queue.{LeasedProcessingJob, JobFailureDisposition}
use g7mediabooster.Uploads.RawKeys.{UuidText}
use g7mediabooster.Worker.{
  RunOutcome, completed, outcome_of, WorkerError, ProcessingFailure, permanent, transient,
}
use g7mediabooster.Worker.Parts.{SourceValidationWorker}
use g7mediabooster.Worker.Runs.{
  try_duration, complete_job, reject_and_retry, retry_job, fail_at, settle,
}

-- The outcome that the queue's answer to a failure tells.
abbrev pub Tells : JobFailureDisposition → RunOutcome → Type 0
Tells JobFailureDisposition.retry_scheduled outcome = outcome ≡ RunOutcome.retry_scheduled
Tells JobFailureDisposition.dead_letter outcome = outcome ≡ RunOutcome.dead_letter

pub outcome_of-Tells : (d : JobFailureDisposition) → Tells d (outcome_of d)
outcome_of-Tells JobFailureDisposition.retry_scheduled = refl
outcome_of-Tells JobFailureDisposition.dead_letter = refl

module _ {W : Type 0} (uuid : UuidText) (worker : SourceValidationWorker W) where
  open worker use {queue, repository, runtime, policy}

  -- The queue completed the job.
  abbrev pub IsCompleted : LeasedProcessingJob → Bytes → W → W → Type 0
  IsCompleted leased worker_id w v =
      Ran (λ u. queue.complete leased.job_id worker_id (runtime.now_utc u) u) w tt v

  -- The repository rejected the upload with a code.
  abbrev pub IsRejected : LeasedProcessingJob → Bytes → W → W → Type 0
  IsRejected leased code w v =
      Ran (λ u. repository.mark_rejected leased.job.upload_id code (runtime.now_utc u) u) w tt v

  -- The queue recorded the failure of the job, to be tried again after the policy's delay, with the
  -- policy's limit of attempts, and the outcome is its answer.
  abbrev pub IsFailed : LeasedProcessingJob → Bytes → Bytes → W → RunOutcome → W → Type 0
  IsFailed leased worker_id code w outcome v =
      (disposition : JobFailureDisposition) × Tells disposition outcome
      × Ran
          (λ u.
            queue.fail leased.job_id worker_id (runtime.now_utc u)
              (runtime.now_utc u + policy.retry_delay) policy.max_attempts code u)
          w disposition v

  -- A result of the processing, in the world at its end, settled as an outcome.
  abbrev pub IsSettled :
      LeasedProcessingJob
      → Bytes
      → Result ProcessingFailure (Unit {0})
      → W
      → RunOutcome
      → W
      → Type 0
  IsSettled leased worker_id (ok u) w outcome v =
      (outcome ≡ completed) × IsCompleted leased worker_id w v
  IsSettled leased worker_id (err (permanent code)) w outcome v =
      (outcome ≡ RunOutcome.rejected)
      × ((u : W) × IsRejected leased code w u × IsCompleted leased worker_id u v)
  IsSettled leased worker_id (err (transient code)) w outcome v =
      ((policy.max_attempts ≤ leased.attempts)
        × ((u : W) × IsRejected leased code w u × IsFailed leased worker_id code u outcome v))
      ⊎ ((leased.attempts + 1 ≤ policy.max_attempts) × IsFailed leased worker_id code w outcome v)
  IsSettled leased worker_id (err (ProcessingFailure.operational code)) w outcome v = ⊥

  same_duration : (d e : ℕ) → try_duration d ≡ ok e → d ≡ e
  same_duration d e h = ground arith

  retry_job-IsFailed :
      (leased : LeasedProcessingJob) (worker_id code : Bytes) (w : W) (outcome : RunOutcome) (v : W)
      → Ran (retry_job uuid worker leased worker_id code) w outcome v
      → IsFailed leased worker_id code w outcome v
  unfolding fail_at
  retry_job-IsFailed leased worker_id code w outcome v h =
      let now = runtime.now_utc w in
      let (delay, valid, h1) = lifted-end (try_duration policy.retry_delay) _ w h in
      let (disposition, u, fails, h2) =
        called-end WorkerError.queue
          (queue.fail leased.job_id worker_id now (now + delay) policy.max_attempts code) _ w h1 in
      let (told, there) = ended h2 in
      (
        disposition,
        subst (Tells disposition) told (outcome_of-Tells disposition),
        ap (λ d. queue.fail leased.job_id worker_id now (now + d) policy.max_attempts code w)
              (same_duration policy.retry_delay delay valid)
            ∙ same_end fails refl there,
      )

  exhausted-IsFailed :
      (leased : LeasedProcessingJob) (worker_id code : Bytes) (w : W) (outcome : RunOutcome) (v : W)
      → Ran (reject_and_retry uuid worker leased worker_id code) w outcome v
      → (u : W) × IsRejected leased code w u × IsFailed leased worker_id code u outcome v
  unfolding reject_and_retry
  exhausted-IsFailed leased worker_id code w outcome v h =
      let (a, u, rejects, h1) =
        called-end WorkerError.repository
          (at_time runtime.now_utc (repository.mark_rejected leased.job.upload_id code)) _ w h in
      (u, rejects, retry_job-IsFailed leased worker_id code u outcome v h1)

  -- A completion, and the outcome after it.
  complete-IsCompleted :
      (leased : LeasedProcessingJob) (worker_id : Bytes) (told : RunOutcome) (w : W)
      (outcome : RunOutcome) (v : W)
      → Ran (complete_job uuid worker leased worker_id >> done told) w outcome v
      → (outcome ≡ told) × IsCompleted leased worker_id w v
  complete-IsCompleted leased worker_id told w outcome v h =
      let (a, u, completes, h1) =
        called-end WorkerError.queue
          (at_time runtime.now_utc (queue.complete leased.job_id worker_id)) _ w h in
      let (same, there) = ended h1 in (sym same, same_end completes refl there)

  pub settle-IsSettled :
      (leased : LeasedProcessingJob) (worker_id : Bytes)
      (result : Result ProcessingFailure (Unit {0})) (w : W) (outcome : RunOutcome) (v : W)
      → Ran (settle uuid worker leased worker_id result) w outcome v
      → IsSettled leased worker_id result w outcome v
  unfolding settle fail_at
  settle-IsSettled leased worker_id (ok u) w outcome v h =
      complete-IsCompleted leased worker_id completed w outcome v h
  settle-IsSettled leased worker_id (err (permanent code)) w outcome v h =
      let (a, u, rejects, h1) =
        called-end WorkerError.repository
          (at_time runtime.now_utc (repository.mark_rejected leased.job.upload_id code)) _ w h in
      let (told, completes) =
        complete-IsCompleted leased worker_id RunOutcome.rejected u outcome v h1 in
      (told, (u, rejects, completes))
  settle-IsSettled leased worker_id (err (transient code)) w outcome v h =
      elim (branched (leb policy.max_attempts leased.attempts)
        (reject_and_retry uuid worker leased worker_id code)
        (retry_job uuid worker leased worker_id code) w h) [
          | inl (last, e) ↦
              inl (ground (arith, last), exhausted-IsFailed leased worker_id code w outcome v e)
          | inr (more, e) ↦
              inr (ground (arith, more), retry_job-IsFailed leased worker_id code w outcome v e)
        ]
  settle-IsSettled leased worker_id (err (ProcessingFailure.operational code)) w outcome v h = cc
