-- ===== src/Store/Queue/Leases.antt =====
-- crates/g7mb-persistence-sqlite/src/lib.rs: `renew`, `complete` and `fail` of a leased job, and
-- `enqueue`.
use g7mediabooster.Base.{
  ℕ, Bool, false, ◌&&◌, ◌||◌, not, [], ◌∷◌, ◌++◌, Option, none, some, Result, ok, err, reject_if,
  ok_or, ◌>>=◌, ◌>>◌, Bytes, length, is_empty, ltb, leb, ◌==◌, eq_bytes, if◌then◌else◌, i64_max,
  find_where, update_where, count_where, any,
}
use g7mediabooster.Ports.{OffsetDateTime, Duration, unix_timestamp}
use g7mediabooster.Store.{
  UploadRow, JobState, queued, leased, completed, JobRow, Store, eq_job_state, is_bytes,
}
use g7mediabooster.Store.Queue.{
  JobQueueError, job_queue_error, ProcessingJob, JobFailureDisposition, from_unix_timestamp,
  validate_worker_id, lease_end, retry_scheduled, dead_letter,
}

-- `state = 'leased' AND lease_owner = ?` of one job.
unfoldable pub is_owned : ℕ → Bytes → JobRow → Bool
is_owned job_id worker_id j =
    j.id == job_id && (eq_job_state j.state leased && is_bytes worker_id j.lease_owner)

unfoldable pub alive : ℕ → Option ℕ → Bool
alive now none = false
alive now (some until) = ltb now until

unfoldable pub is_renewable : ℕ → Bytes → ℕ → JobRow → Bool
unfolding is_owned alive
is_renewable job_id worker_id now j = is_owned job_id worker_id j && alive now j.lease_until

unfoldable pub renew_from :
    Store → ℕ → Bytes → ℕ → Result JobQueueError ℕ → Result JobQueueError OffsetDateTime × Store
renew_from s job_id worker_id now (err e) = (err e, s)
renew_from s job_id worker_id now (ok until) =
    if any (is_renewable job_id worker_id now) s.jobs
    then (
      ok_or (from_unix_timestamp until) (job_queue_error "renewed lease expiration is invalid"),
      record s {
        jobs =
            update_where (is_renewable job_id worker_id now)
              (λ (j : JobRow). record j { lease_until = some until; updated_at = now }) s.jobs;
      },
    )
    else (err (job_queue_error "job lease is not renewable by this worker"), s)

-- `renew`: the new end of the lease. An error of the conversion comes after the update.
unfoldable pub renew :
    Store → ℕ → Bytes → OffsetDateTime → Duration → Result JobQueueError OffsetDateTime × Store
unfolding renew_from
renew s job_id worker_id now lease_for =
    renew_from s job_id worker_id (unix_timestamp now)
      (do validate_worker_id worker_id; lease_end now lease_for)

-- `complete`.
unfoldable pub complete : Store → ℕ → Bytes → OffsetDateTime → Result JobQueueError (Store)
complete s job_id worker_id now = do
  validate_worker_id worker_id
  reject_if (not (count_where (is_owned job_id worker_id) s.jobs == 1))
      (job_queue_error "job is not leased by the requesting worker")
  ok (record s {
    jobs =
        update_where (is_owned job_id worker_id)
          (λ (j : JobRow). record j {
            state = completed;
            lease_owner = none;
            lease_until = none;
            updated_at = unix_timestamp now;
          })
          s.jobs;
  })

-- `CASE WHEN attempts >= ? THEN 'dead_letter' ELSE 'queued' END`.
abbrev pub failed_state : ℕ → JobRow → JobState
failed_state max_attempts j = if leb max_attempts j.attempts then JobState.dead_letter else queued

abbrev pub disposition_of : ℕ → JobRow → JobFailureDisposition
disposition_of max_attempts j = if leb max_attempts j.attempts then dead_letter else retry_scheduled

-- `fail`.
unfoldable pub fail :
    Store
    → ℕ
    → Bytes
    → OffsetDateTime
    → OffsetDateTime
    → ℕ
    → Bytes
    → Result JobQueueError (JobFailureDisposition × Store)
fail s job_id worker_id now retry_at max_attempts error_code = do
  validate_worker_id worker_id
  reject_if (max_attempts == 0 || is_empty error_code || ltb 64 (length error_code))
      (job_queue_error "failure policy is invalid")
  j ←
      ok_or (find_where (is_owned job_id worker_id) s.jobs)
        (job_queue_error "job is not leased by the requesting worker")
  ok (
    disposition_of max_attempts j,
    record s {
      jobs =
          update_where (is_owned job_id worker_id)
            (λ (j : JobRow). record j {
              state = failed_state max_attempts j;
              available_at = unix_timestamp retry_at;
              lease_owner = none;
              lease_until = none;
              last_error_code = some error_code;
              updated_at = unix_timestamp now;
            })
            s.jobs;
    },
  )

abbrev pub exceeds_i64 : Option ℕ → Bool
exceeds_i64 none = false
exceeds_i64 (some n) = ltb i64_max n

-- A row with the identifier, or with the upload and the preset of the job, is there already.
abbrev pub conflicts : ProcessingJob → ℕ → JobRow → Bool
conflicts job new_id j =
    j.id == new_id || (j.upload_id == job.upload_id && eq_bytes j.preset_id job.preset_id)

abbrev pub new_job : ProcessingJob → ℕ → ℕ → JobRow
new_job job new_id now = record {
  id = new_id;
  upload_id = job.upload_id;
  preset_id = job.preset_id;
  site_policy_revision = job.site_policy_revision;
  state = queued;
  attempts = 0;
  available_at = now;
  lease_owner = none;
  lease_until = none;
  last_error_code = none;
  created_at = now;
  updated_at = now;
}

-- `INSERT OR IGNORE` under `UNIQUE (upload_id, preset_id)` and the primary key. A job of an upload
-- that is not there breaks the foreign key.
unfoldable pub insert_or_ignore : Store → ProcessingJob → ℕ → ℕ → Result JobQueueError Store
insert_or_ignore s job new_id now =
    if any (conflicts job new_id) s.jobs
    then ok s
    else if any (λ (u : UploadRow). u.id == job.upload_id) s.uploads
    then ok (record s { jobs = s.jobs ++ new_job job new_id now ∷ [] })
    else err (job_queue_error "SQLite backend: FOREIGN KEY constraint failed")

-- `enqueue`.
unfoldable pub enqueue : Store → ProcessingJob → ℕ → OffsetDateTime → Result JobQueueError Store
unfolding insert_or_ignore
enqueue s job new_id now = do
  reject_if (is_empty job.preset_id || ltb 128 (length job.preset_id))
      (job_queue_error "preset_id is invalid")
  reject_if (exceeds_i64 job.site_policy_revision)
      (job_queue_error "site policy revision exceeds SQLite range")
  insert_or_ignore s job new_id (unix_timestamp now)
