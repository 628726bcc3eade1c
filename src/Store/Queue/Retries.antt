-- ===== src/Store/Queue/Retries.antt =====
-- The failure of a job with its retries, and an enqueue that is repeated.
use g7mediabooster.Base.{
  ℕ, ◌≤◌, ◌<◌, ◌≡◌, refl, ◌∙◌, subst, ◌≢◌, ◌⊎◌, ◌↔◌, inl, inr, true, List, [], ◌∷◌, ◌++◌, none,
  some, ok, Bytes, All, any, arith, leb, any-append, eq_bytes_refl, Bool-cases, Option-cases,
  find_where, find_where-All,
}
use g7mediabooster.Ports.{OffsetDateTime, unix_timestamp}
use g7mediabooster.Store.{JobRow, JobState, Store}
use g7mediabooster.Store.Queue.{
  JobFailureDisposition, retry_scheduled, dead_letter, ProcessingJob, is_eligible, expired,
}
use g7mediabooster.Store.Queue.Leases.{
  is_owned, fail, enqueue, new_job, conflicts, failed_state, disposition_of, insert_or_ignore,
}
use g7mediabooster.Store.Queue.Steps.{job_at, Keyed, UniqueIds, UniqueIds-Keyed}
use g7mediabooster.Store.Queue.Rows.{update_at}
use g7mediabooster.Store.Queue.Changes.{fail-eq-ok}

fail-row :
    (s s' : Store) (job_id : ℕ) (worker_id : Bytes) (now retry_at : OffsetDateTime)
    (max_attempts : ℕ) (error_code : Bytes) (d : JobFailureDisposition)
    → fail s job_id worker_id now retry_at max_attempts error_code ≡ ok (d, s')
    → (j : JobRow) × (find_where (is_owned job_id worker_id) s.jobs ≡ some j)
      × (d ≡ disposition_of max_attempts j)
unfolding fail
fail-row s s' job_id worker_id now retry_at max_attempts error_code d h =
    elim (Option-cases (find_where (is_owned job_id worker_id) s.jobs)) [
      | inl missing ↦ ground arith
      | inr (j, found) ↦ (j, found, ground arith)
    ]

owned-id :
    (job_id : ℕ) (worker_id : Bytes) (j : JobRow)
    → is_owned job_id worker_id j ≡ true
    → j.id ≡ job_id
unfolding is_owned
owned-id job_id worker_id j h = ground arith

abbrev failed_row : OffsetDateTime → OffsetDateTime → ℕ → Bytes → JobRow → JobRow
failed_row now retry_at max_attempts error_code j = record j {
  state = failed_state max_attempts j;
  available_at = unix_timestamp retry_at;
  lease_owner = none;
  lease_until = none;
  last_error_code = some error_code;
  updated_at = unix_timestamp now;
}

outcome :
    (now retry_at : OffsetDateTime) (max_attempts : ℕ) (error_code : Bytes) (j : JobRow)
    (d : JobFailureDisposition)
    → d ≡ disposition_of max_attempts j
    → ((d ≡ dead_letter)
        × ((failed_row now retry_at max_attempts error_code j).state ≡ JobState.dead_letter)
        × (max_attempts ≤ j.attempts))
      ⊎ ((d ≡ retry_scheduled)
          × (j.attempts < max_attempts)
          × ((t : ℕ)
              → (is_eligible t (failed_row now retry_at max_attempts error_code j) ≡ true)
                ↔ (unix_timestamp retry_at ≤ t)))
unfolding is_eligible expired
outcome now retry_at max_attempts error_code j d e =
    elim (Bool-cases (leb max_attempts j.attempts)) [
      | inl spent ↦ inl (ground arith, ground arith, ground arith)
      | inr more ↦ inr (ground arith, ground arith, λ t. ground arith)
    ]

-- When a failure is recorded, the job was leased to the worker; it is dead-lettered, and the answer
-- says so, exactly when it has had the allowed attempts; otherwise it waits in the queue and can be
-- claimed exactly from the retry time on. Either way nobody holds a lease on it. The job identifiers
-- are unique.
pub fail-retries :
    (s s' : Store) (job_id : ℕ) (worker_id : Bytes) (now retry_at : OffsetDateTime)
    (max_attempts : ℕ) (error_code : Bytes) (d : JobFailureDisposition)
    → UniqueIds s.jobs
    → fail s job_id worker_id now retry_at max_attempts error_code ≡ ok (d, s')
    → (j : JobRow) × (k : JobRow) × (job_at job_id s ≡ some j)
      × (job_at job_id s' ≡ some k)
      × (is_owned job_id worker_id j ≡ true)
      × (k.attempts ≡ j.attempts)
      × (k.lease_owner ≡ none)
      × (((d ≡ dead_letter) × (k.state ≡ JobState.dead_letter) × (max_attempts ≤ j.attempts))
          ⊎ ((d ≡ retry_scheduled)
              × (j.attempts < max_attempts)
              × ((t : ℕ) → (is_eligible t k ≡ true) ↔ (unix_timestamp retry_at ≤ t))))
fail-retries s s' job_id worker_id now retry_at max_attempts error_code d u h =
    let (j, found, answer) =
      fail-row s s' job_id worker_id now retry_at max_attempts error_code d h in
    let (owned, keyed) =
      find_where-All (Keyed s.jobs) (is_owned job_id worker_id) s.jobs (UniqueIds-Keyed s.jobs u)
        found in
    let before : job_at job_id s ≡ some j =
      subst (λ n. job_at n s ≡ some j) (owned-id job_id worker_id j owned) keyed in
    let k : JobRow = failed_row now retry_at max_attempts error_code j in
    let after : job_at job_id s' ≡ some k =
      rw (fail-eq-ok s s' job_id worker_id now retry_at max_attempts error_code d h) (
        update_at job_id (is_owned job_id worker_id)
          (failed_row now retry_at max_attempts error_code) s.jobs (λ k. refl) before
        ∙ rw owned) in
    (
      j,
      k,
      before,
      after,
      owned,
      refl,
      refl,
      outcome now retry_at max_attempts error_code j d answer,
    )

conflicts-other :
    (job : ProcessingJob) (new_id next_id : ℕ) (js : List JobRow)
    → All (λ (k : JobRow). k.id ≢ new_id) js
    → any (conflicts job new_id) js ≡ true
    → any (conflicts job next_id) js ≡ true
conflicts-other job new_id next_id [] fresh h = cc
conflicts-other job new_id next_id (j ∷ js) fresh h =
    ground (arith, fresh.0, h, conflicts-other job new_id next_id js fresh.1)

conflicts-added :
    (job : ProcessingJob) (new_id next_id now : ℕ) (js : List JobRow)
    → any (conflicts job next_id) (js ++ new_job job new_id now ∷ []) ≡ true
conflicts-added job new_id next_id now js = ground (
  arith,
  any-append (conflicts job next_id) js (new_job job new_id now ∷ []),
  eq_bytes_refl job.preset_id,
)

-- After an enqueue under a fresh identifier that succeeds, the upload and the preset have a job.
conflicts-enqueued :
    (s s' : Store) (job : ProcessingJob) (new_id next_id : ℕ) (now : OffsetDateTime)
    → All (λ (k : JobRow). k.id ≢ new_id) s.jobs
    → enqueue s job new_id now ≡ ok s'
    → any (conflicts job next_id) s'.jobs ≡ true
unfolding enqueue insert_or_ignore
conflicts-enqueued s s' job new_id next_id now fresh h =
    elim (Bool-cases (any (conflicts job new_id) s.jobs)) [
      | inl there ↦
          let same : s.jobs ≡ s'.jobs = ground arith in
          rw (← same) (conflicts-other job new_id next_id s.jobs fresh there)
      | inr absent ↦
          let added : s'.jobs ≡ s.jobs ++ new_job job new_id (unix_timestamp now) ∷ [] =
            ground arith in
          rw added (conflicts-added job new_id next_id (unix_timestamp now) s.jobs)
    ]

-- After an enqueue under a fresh identifier that succeeds, the same enqueue at a later time and
-- under another identifier succeeds and changes nothing.
pub enqueue_is_idempotent :
    (s s' : Store) (job : ProcessingJob) (new_id next_id : ℕ) (now later : OffsetDateTime)
    → All (λ (k : JobRow). k.id ≢ new_id) s.jobs
    → enqueue s job new_id now ≡ ok s'
    → enqueue s' job next_id later ≡ ok s'
unfolding enqueue insert_or_ignore
enqueue_is_idempotent s s' job new_id next_id now later fresh h =
    ground (arith, conflicts-enqueued s s' job new_id next_id now fresh h)
