-- ===== src/Store/Calls/Queue.antt =====
-- The queue does not change the uploads.
use g7mediabooster.Base.{
  ℕ, ◌≡◌, refl, Option, none, some, Result, ok, err, ◌>>◌, Bytes, arith, any, Bool-cases, inl, inr,
}
use g7mediabooster.Ports.{OffsetDateTime, Duration, unix_timestamp}
use g7mediabooster.Store.{Store}
use g7mediabooster.Store.Queue.{
  JobQueueError, ProcessingJob, JobFailureDisposition, Candidate, candidates, next_candidate, claim,
  claimed, claim_from, claim_next, validate_worker_id, lease_end,
}
use g7mediabooster.Store.Queue.Leases.{
  is_renewable, renew_from, renew, complete, fail, insert_or_ignore, enqueue,
}
use g7mediabooster.Store.Queue.Steps.{Call, claims, renews, completes, fails, enqueues, apply}
use g7mediabooster.Store.Queue.Changes.{kept-cases, kept_pair-cases}
use g7mediabooster.Store.Moves.{IsSameUsage}
use g7mediabooster.Store.Calls.Uploads.{same_usage}

claim_next-same :
    (s : Store) (worker_id : Bytes) (now : OffsetDateTime) (lease_for : Duration)
    → IsSameUsage s (claim_next s worker_id now lease_for).1
unfolding claim_next claim_from claimed claim
claim_next-same s worker_id now lease_for =
    checked (validate_worker_id worker_id >> lease_end now lease_for)
  where
    t : ℕ
    t = unix_timestamp now

    chosen : (until : ℕ) (o : Option Candidate) → IsSameUsage s (claimed s worker_id until t o).1
    chosen until none = same_usage s
    chosen until (some c) = record { uploads = refl; global = refl; by_tenant = refl }

    checked : (r : Result JobQueueError ℕ) → IsSameUsage s (claim_from s worker_id t r).1
    checked (err e) = same_usage s
    checked (ok until) = chosen until (next_candidate (candidates s t s.jobs))

renew-same :
    (s : Store) (job_id : ℕ) (worker_id : Bytes) (now : OffsetDateTime) (lease_for : Duration)
    → IsSameUsage s (renew s job_id worker_id now lease_for).1
unfolding renew renew_from
renew-same s job_id worker_id now lease_for =
    checked (validate_worker_id worker_id >> lease_end now lease_for)
  where
    t : ℕ
    t = unix_timestamp now

    checked : (r : Result JobQueueError ℕ) → IsSameUsage s (renew_from s job_id worker_id t r).1
    checked (err e) = same_usage s
    checked (ok until) = elim (Bool-cases (any (is_renewable job_id worker_id t) s.jobs)) [
      | inl found ↦
          rw (found, renew_from) (record { uploads = refl; global = refl; by_tenant = refl })
      | inr refused ↦ rw (refused, renew_from) (same_usage s)
    ]

complete-same :
    (s s' : Store) (job_id : ℕ) (worker_id : Bytes) (now : OffsetDateTime)
    → complete s job_id worker_id now ≡ ok s'
    → IsSameUsage s s'
unfolding complete
complete-same s s' job_id worker_id now h = record {
  uploads = ground arith;
  global = ground arith;
  by_tenant = ground arith;
}

fail-same :
    (s s' : Store) (job_id : ℕ) (worker_id : Bytes) (now retry_at : OffsetDateTime)
    (max_attempts : ℕ) (error_code : Bytes) (d : JobFailureDisposition)
    → fail s job_id worker_id now retry_at max_attempts error_code ≡ ok (d, s')
    → IsSameUsage s s'
unfolding fail
fail-same s s' job_id worker_id now retry_at max_attempts error_code d h = record {
  uploads = ground arith;
  global = ground arith;
  by_tenant = ground arith;
}

enqueue-same :
    (s s' : Store) (job : ProcessingJob) (new_id : ℕ) (now : OffsetDateTime)
    → enqueue s job new_id now ≡ ok s'
    → IsSameUsage s s'
unfolding enqueue insert_or_ignore
enqueue-same s s' job new_id now h = record {
  uploads = ground arith;
  global = ground arith;
  by_tenant = ground arith;
}

-- No call of the queue changes the uploads or their usage.
pub apply-same : (s : Store) (c : Call) → IsSameUsage s (apply s c)
unfolding apply
apply-same s (claims worker_id now lease_for) = claim_next-same s worker_id now lease_for
apply-same s (renews job_id worker_id now lease_for) = renew-same s job_id worker_id now lease_for
apply-same s (completes job_id worker_id now) =
    kept-cases (IsSameUsage s) s _ (same_usage s) λ s'. complete-same s s' job_id worker_id now
apply-same s (fails job_id worker_id now retry_at max_attempts error_code) =
    kept_pair-cases (IsSameUsage s) s _ (same_usage s)
      λ d s'. fail-same s s' job_id worker_id now retry_at max_attempts error_code d
apply-same s (enqueues job new_id now) =
    kept-cases (IsSameUsage s) s _ (same_usage s) λ s'. enqueue-same s s' job new_id now
