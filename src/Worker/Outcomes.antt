-- ===== src/Worker/Outcomes.antt =====
-- What the outcomes of `run_one` say about the job and its upload.
use g7mediabooster.Base.{
  ◌≡◌, refl, sym, ap, subst, ◌⊎◌, inl, inr, false, not, Option, none, some, Result, ok, err, Bytes,
  codes, eq_bytes, eq_bytes_eq, eq_bytes_refl, arith,
}
use g7mediabooster.Ports.{OffsetDateTime}
use g7mediabooster.Ports.Effects.{Effect, after, convert, done}
use g7mediabooster.Ports.Chains.{Ran}
use g7mediabooster.Ports.Ends.{called-end, chained-end, branched, ended, same_end}
use g7mediabooster.Store.Queue.{JobQueueError, LeasedProcessingJob, JobFailureDisposition}
use g7mediabooster.Uploads.RawKeys.{UuidText}
use g7mediabooster.Worker.{
  RunOutcome, idle, WorkerError, ProcessingFailure, source_validation_preset,
}
use g7mediabooster.Worker.Parts.{SourceValidationWorker}
use g7mediabooster.Worker.Source.{validate_source}
use g7mediabooster.Worker.Runs.{fail_unsupported, renew_lease, process_job, run_claimed, run_one}
use g7mediabooster.Worker.Settled.{Tells, outcome_of-Tells, IsSettled, settle-IsSettled}

module _ {W : Type 0} (uuid : UuidText) (worker : SourceValidationWorker W) where
  open worker use {queue, repository, runtime, policy}

  -- A job of another preset, whose failure is recorded with one attempt at most and no delay.
  abbrev pub IsUnsupported : LeasedProcessingJob → Bytes → W → RunOutcome → W → Type 0
  IsUnsupported leased worker_id w outcome v =
      (disposition : JobFailureDisposition) × Tells disposition outcome
      × Ran
          (λ u.
            queue.fail leased.job_id worker_id (runtime.now_utc u) (runtime.now_utc u) 1
              (codes "UNSUPPORTED_PRESET") u)
          w disposition v

  fail_unsupported-IsUnsupported :
      (leased : LeasedProcessingJob) (worker_id : Bytes) (w : W) (outcome : RunOutcome) (v : W)
      → Ran (fail_unsupported uuid worker leased worker_id) w outcome v
      → IsUnsupported leased worker_id w outcome v
  unfolding fail_unsupported
  fail_unsupported-IsUnsupported leased worker_id w outcome v h =
      let (disposition, u, fails, h1) =
        called-end WorkerError.queue
          (λ u.
            queue.fail leased.job_id worker_id (runtime.now_utc u) (runtime.now_utc u) 1
              (codes "UNSUPPORTED_PRESET") u)
          _ w h in
      let (told, there) = ended h1 in
      (
        disposition,
        subst (Tells disposition) told (outcome_of-Tells disposition),
        same_end fails refl there,
      )

  -- The answer to a renewal: its failure is the worker's, its time is not used.
  abbrev pub renewed : Result JobQueueError OffsetDateTime × W → Result WorkerError (Unit {0}) × W
  renewed (ok until, v) = (ok tt, v)
  renewed (err e, v) = (err (WorkerError.queue e), v)

  -- A tick renews the lease of the job at the time of the tick, for the policy's length.
  abbrev pub Renews : LeasedProcessingJob → Bytes → Effect W WorkerError (Unit {0}) → Type 0
  Renews leased worker_id tick =
      (u : W)
      → tick u
        ≡ renewed (queue.renew leased.job_id worker_id (runtime.now_utc u) policy.lease_for u)

  renew_lease-Renews :
      (leased : LeasedProcessingJob) (worker_id : Bytes)
      → Renews leased worker_id (renew_lease uuid worker leased worker_id)
  renew_lease-Renews leased worker_id u =
      answered (queue.renew leased.job_id worker_id (runtime.now_utc u) policy.lease_for u)
    where
      answered :
          (r : Result JobQueueError OffsetDateTime × W)
          → after (convert WorkerError.queue r) (λ until. done tt) ≡ renewed r
      answered (ok until, v) = refl
      answered (err e, v) = refl

  -- A job that was processed under a heartbeat that renews its lease, and settled by the result.
  abbrev pub IsProcessedJob : LeasedProcessingJob → Bytes → W → RunOutcome → W → Type 0
  IsProcessedJob leased worker_id w outcome v =
      (tick : Effect W WorkerError (Unit {0})) × Renews leased worker_id tick
      × ((result : Result ProcessingFailure (Unit {0})) × (u : W) × Ran
            (runtime.with_heartbeat policy.heartbeat_every tick
              (validate_source uuid worker leased.job.upload_id leased.job.site_policy_revision))
            w result u
          × IsSettled uuid worker leased worker_id result u outcome v)

  process_job-IsProcessedJob :
      (leased : LeasedProcessingJob) (worker_id : Bytes) (w : W) (outcome : RunOutcome) (v : W)
      → Ran (process_job uuid worker leased worker_id) w outcome v
      → IsProcessedJob leased worker_id w outcome v
  unfolding process_job
  process_job-IsProcessedJob leased worker_id w outcome v h =
      let (result, u, runs, h1) =
        chained-end
          (runtime.with_heartbeat policy.heartbeat_every (renew_lease uuid worker leased worker_id)
            (validate_source uuid worker leased.job.upload_id leased.job.site_policy_revision))
          _ w h in
      (
        renew_lease uuid worker leased worker_id,
        renew_lease-Renews leased worker_id,
        (result, u, runs, settle-IsSettled uuid worker leased worker_id result u outcome v h1),
      )

  -- What the claim answered with, and what became of it.
  abbrev pub IsOutcome : Option LeasedProcessingJob → Bytes → W → RunOutcome → W → Type 0
  IsOutcome none worker_id w outcome v = (outcome ≡ idle) × (v ≡ w)
  IsOutcome (some leased) worker_id w outcome v =
      (¬ (leased.job.preset_id ≡ codes "source-validation-v1")
        × IsUnsupported leased worker_id w outcome v)
      ⊎ ((leased.job.preset_id ≡ codes "source-validation-v1")
          × IsProcessedJob leased worker_id w outcome v)

  other_text : (a b : Bytes) → eq_bytes a b ≡ false → ¬ (a ≡ b)
  other_text a b h e = cc (h, ap (eq_bytes a) e, eq_bytes_refl a)

  run_claimed-IsOutcome :
      (claimed : Option LeasedProcessingJob) (worker_id : Bytes) (w : W) (outcome : RunOutcome)
      (v : W)
      → Ran (run_claimed uuid worker worker_id claimed) w outcome v
      → IsOutcome claimed worker_id w outcome v
  unfolding run_claimed
  run_claimed-IsOutcome none worker_id w outcome v h =
      let (told, there) = ended h in (sym told, sym there)
  run_claimed-IsOutcome (some leased) worker_id w outcome v h =
      elim (branched (not (eq_bytes leased.job.preset_id source_validation_preset))
        (fail_unsupported uuid worker leased worker_id) (process_job uuid worker leased worker_id) w
        h) [
          | inl (other, e) ↦ inl (
            other_text leased.job.preset_id source_validation_preset (ground (arith, other)),
            fail_unsupported-IsUnsupported leased worker_id w outcome v e,
          )
          | inr (own, e) ↦ inr (
            eq_bytes_eq leased.job.preset_id source_validation_preset (ground (arith, own)),
            process_job-IsProcessedJob leased worker_id w outcome v e,
          )
        ]

  -- A run that ends without an error claimed a job for the policy's lease or found none (idle), and
  -- its outcome says what became of the job, each call made in the world that the last one left,
  -- and the last call ends the run. Completed: the processing, under a heartbeat that renews the
  -- lease, succeeded, and then the job was completed. Rejected: it failed permanently, then the
  -- upload was rejected with that code, and then the job was completed. A retry or a dead letter is
  -- what the queue answered when the failure was recorded: with the code of a transient failure,
  -- the policy's limit of attempts and a retry after the policy's delay, before which the upload
  -- was rejected if the job had its last attempt; or at once and with one attempt for a job of
  -- another preset. After an operational failure there is no outcome.
  pub run_one-IsOutcome :
      (worker_id : Bytes) (w : W) (outcome : RunOutcome) (v : W)
      → Ran (run_one uuid worker worker_id) w outcome v
      → (claimed : Option LeasedProcessingJob) × (u : W) × Ran
          (λ t. queue.claim_next worker_id (runtime.now_utc t) policy.lease_for t)
          w
          claimed
          u
        × IsOutcome claimed worker_id u outcome v
  unfolding run_one
  run_one-IsOutcome worker_id w outcome v h =
      let (claimed, u, claims, h1) =
        called-end WorkerError.queue
          (λ t. queue.claim_next worker_id (runtime.now_utc t) policy.lease_for t) _ w h in
      (claimed, u, claims, run_claimed-IsOutcome claimed worker_id u outcome v h1)
