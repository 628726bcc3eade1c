-- ===== src/Examples/Queues.antt =====
-- The queue of crates/g7mb-persistence-sqlite/src/lib.rs and its nonces on concrete stores.
use g7mediabooster.Base.{
  ℕ, ◌+◌, ◌≤◌, ◌<◌, ◌≡◌, ◌≢◌, ◌⊎◌, ◌↔◌, inl, refl, true, false, List, [], ◌∷◌, ◌++◌, none, some, ok,
  Bytes, codes, arith, All, find_where, update_where, ap, eq_bytes, eq_bytes_refl,
}
use g7mediabooster.Domain.{image, single_put, quarantined}
use g7mediabooster.Ports.{from_secs, as_secs, unix_timestamp}
use g7mediabooster.Store.{UploadRow, JobRow, JobState, queued, leased, completed, Store}
use g7mediabooster.Store.Queue.{
  ProcessingJob, LeasedProcessingJob, JobFailureDisposition, retry_scheduled, claim_next, lease_end,
  is_eligible, claim_from, claimed, claim, validate_worker_id, candidates, next_candidate,
  leased_job, lease_row, expired, first_of_order, precedes, candidate_of, claim_sequence,
  set_claim_sequence,
}
use g7mediabooster.Store.Queue.Leases.{fail, enqueue, is_owned, insert_or_ignore}
use g7mediabooster.Store.Queue.Steps.{Call, claims, fails, apply, apply_all, job_at, UniqueIds}
use g7mediabooster.Store.Queue.Exclusive.{IsForeign, lease_is_exclusive, settled_is_final}
use g7mediabooster.Store.Queue.Grants.{IsGrant, claim_next-IsGrant}
use g7mediabooster.Store.Queue.Retries.{fail-retries, enqueue_is_idempotent}
use g7mediabooster.Store.Queue.Fairness.{IsBounded, served, is_waiting}
use g7mediabooster.Store.Queue.Turns.{tenants_take_turns}

abbrev pub upload : ℕ → Bytes → UploadRow
upload id tenant = record {
  id = id;
  tenant_id = tenant;
  object_key = record { value = codes "raw/" ++ (id ∷ []) };
  state = quarantined;
  expected_size_bytes = 1000;
  actual_size_bytes = some 1000;
  content_type_hint = codes "image/png";
  detected_content_type = none;
  source_sha256 = none;
  error_code = none;
  created_at = 10;
  updated_at = 10;
  batch_id = none;
  declared_kind = image;
  transfer = single_put;
  multipart_upload_id = none;
  delete_requested_at = none;
  deleted_at = none;
  cleanup_lease_owner = none;
  cleanup_lease_until = none;
  cleanup_retry_at = none;
  cleanup_attempts = 0;
  cleanup_error_code = none;
}

abbrev pub job : ℕ → ℕ → JobRow
job id upload_id = record {
  id = id;
  upload_id = upload_id;
  preset_id = codes "p";
  site_policy_revision = none;
  state = queued;
  attempts = 0;
  available_at = 10;
  lease_owner = none;
  lease_until = none;
  last_error_code = none;
  created_at = 10;
  updated_at = 10;
}

-- One upload and one job of each of two tenants.
abbrev pub two_jobs : Store
two_jobs = record {
  uploads = upload 1 (codes "a") ∷ upload 2 (codes "b") ∷ [];
  jobs = job 1 1 ∷ job 2 2 ∷ [];
  derivatives = [];
  batches = [];
  nonces = [];
  policies = [];
  orphans = [];
  cursors = [];
  next_claim_sequence = 1;
  tenant_queue_state = [];
  reserved_global = 2000;
  reserved_by_tenant = λ t. 0;
}

two_jobs-UniqueIds : UniqueIds two_jobs.jobs
two_jobs-UniqueIds = ((omega arith, tt), (tt, tt))

-- The first job, leased to a worker until second 100.
abbrev leased_row : JobRow
leased_row = record (job 1 1) {
  state = leased;
  attempts = 1;
  lease_owner = some (codes "w1");
  lease_until = some 100;
}

abbrev one_leased : Store
one_leased = record two_jobs { jobs = leased_row ∷ job 2 2 ∷ [] }

one_leased-UniqueIds : UniqueIds one_leased.jobs
one_leased-UniqueIds = ((omega arith, tt), (tt, tt))

-- Another worker claims at second 50 and fails the job.
abbrev others : List Call
others =
    claims (codes "w2") (from_secs 50) (from_secs 60)
    ∷ fails 1 (codes "w2") (from_secs 50) (from_secs 60) 3 (codes "E")
    ∷ []

apart : (a b : Bytes) → eq_bytes a b ≡ false → a ≢ b
apart a b h e = cc (ap (eq_bytes a) e, eq_bytes_refl a, h)

others-IsForeign : All (IsForeign (codes "w1") 100) others
others-IsForeign = (omega arith, (apart (codes "w2") (codes "w1") refl, tt))

found : job_at 1 one_leased ≡ some leased_row
unfolding find_where
found = refl

lease_is_exclusive_example : job_at 1 (apply_all one_leased others) ≡ some leased_row
lease_is_exclusive_example =
    lease_is_exclusive one_leased others 1 (codes "w1") 100 leased_row one_leased-UniqueIds found
      (record { leased_state = refl; owner = refl; end = refl }) others-IsForeign

abbrev done_row : JobRow
done_row = record (job 1 1) { state = completed; attempts = 1 }

found_done : job_at 1 (record two_jobs { jobs = done_row ∷ job 2 2 ∷ [] }) ≡ some done_row
unfolding find_where
found_done = refl

settled_is_final_example :
    job_at 1 (apply_all (record two_jobs { jobs = done_row ∷ job 2 2 ∷ [] }) others) ≡ some done_row
settled_is_final_example =
    settled_is_final (record two_jobs { jobs = done_row ∷ job 2 2 ∷ [] }) others 1 done_row
      ((omega arith, tt), (tt, tt)) found_done (inl refl)

-- What the first claim answers with.
abbrev first_lease : LeasedProcessingJob
first_lease = record {
  job_id = 1;
  job = record { upload_id = 1; preset_id = codes "p"; site_policy_revision = none };
  attempts = 1;
  lease_until = from_secs 80;
  enqueued_at = from_secs 10;
}

first_claim :
    (claim_next two_jobs (codes "w1") (from_secs 20) (from_secs 60)).0 ≡ ok (some first_lease)
unfolding claim_next claim_from claimed validate_worker_id lease_end candidates candidate_of
    is_eligible expired find_where next_candidate first_of_order precedes leased_job lease_row
    claim_sequence
first_claim = refl

claim_next-IsGrant_example :
    (until : ℕ) × (until ≡ unix_timestamp (from_secs 20) + as_secs (from_secs 60))
    × IsGrant two_jobs
        (claim_next two_jobs (codes "w1") (from_secs 20) (from_secs 60)).1
        (codes "w1")
        (unix_timestamp (from_secs 20))
        until
        first_lease
claim_next-IsGrant_example =
    claim_next-IsGrant two_jobs (codes "w1") (from_secs 20) (from_secs 60) first_lease
      two_jobs-UniqueIds first_claim

-- The worker reports the failure of its job.
abbrev after_failure : Store
after_failure = record two_jobs {
  jobs =
      record leased_row {
        state = queued;
        available_at = 70;
        lease_owner = none;
        lease_until = none;
        last_error_code = some (codes "E");
        updated_at = 50;
      }
      ∷ job 2 2
      ∷ [];
}

failure :
    fail one_leased 1 (codes "w1") (from_secs 50) (from_secs 70) 3 (codes "E")
    ≡ ok (retry_scheduled, after_failure)
unfolding fail validate_worker_id is_owned find_where update_where
failure = refl

fail-retries_example :
    (j : JobRow) × (k : JobRow) × (job_at 1 one_leased ≡ some j)
    × (job_at 1 after_failure ≡ some k)
    × (is_owned 1 (codes "w1") j ≡ true)
    × (k.attempts ≡ j.attempts)
    × (k.lease_owner ≡ none)
    × (((retry_scheduled ≡ JobFailureDisposition.dead_letter)
          × (k.state ≡ JobState.dead_letter)
          × (3 ≤ j.attempts))
        ⊎ ((retry_scheduled ≡ retry_scheduled)
            × (j.attempts < 3)
            × ((t : ℕ) → (is_eligible t k ≡ true) ↔ (unix_timestamp (from_secs 70) ≤ t))))
fail-retries_example =
    fail-retries one_leased after_failure 1 (codes "w1") (from_secs 50) (from_secs 70) 3 (codes "E")
      retry_scheduled one_leased-UniqueIds failure

abbrev next_job : ProcessingJob
next_job = record { upload_id = 1; preset_id = codes "q"; site_policy_revision = none }

abbrev enqueued : Store
enqueued = record two_jobs {
  jobs =
      job 1 1
      ∷ job 2 2
      ∷ record (job 3 1) {
        preset_id = codes "q";
        available_at = 30;
        created_at = 30;
        updated_at = 30;
      }
      ∷ [];
}

enqueue_accepted : enqueue two_jobs next_job 3 (from_secs 30) ≡ ok enqueued
unfolding enqueue insert_or_ignore
enqueue_accepted = refl

enqueue_is_idempotent_example : enqueue enqueued next_job 4 (from_secs 40) ≡ ok enqueued
enqueue_is_idempotent_example =
    enqueue_is_idempotent two_jobs enqueued next_job 3 4 (from_secs 30) (from_secs 40)
      (omega arith, (omega arith, tt)) enqueue_accepted

abbrev first_call : Call
first_call = claims (codes "w1") (from_secs 20) (from_secs 60)

two_jobs-IsBounded : IsBounded two_jobs
unfolding claim_sequence
two_jobs-IsBounded tenant = omega arith

serves_a : served two_jobs first_call ≡ some (codes "a")
unfolding served validate_worker_id lease_end candidates candidate_of is_eligible expired find_where
    next_candidate first_of_order precedes claim_sequence
serves_a = refl

b_waits : is_waiting (codes "b") (apply_all (apply two_jobs first_call) []) 20 ≡ true
unfolding apply apply_all claim_next claim_from claimed claim validate_worker_id lease_end
    candidates candidate_of is_eligible expired find_where next_candidate first_of_order precedes
    lease_row claim_sequence set_claim_sequence update_where
b_waits = refl

tenants_take_turns_example :
    served
      (apply_all (apply two_jobs first_call) [])
      (claims (codes "w2") (from_secs 20) (from_secs 60))
    ≢ some (codes "a")
tenants_take_turns_example =
    tenants_take_turns two_jobs first_call [] (codes "w2") (from_secs 20) (from_secs 60) (codes "a")
      (codes "b") two_jobs-IsBounded (apart (codes "a") (codes "b") refl) serves_a tt b_waits
