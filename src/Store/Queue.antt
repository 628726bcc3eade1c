-- ===== src/Store/Queue.antt =====
-- crates/g7mb-persistence-sqlite/src/lib.rs: `impl JobQueue for SqliteStore`, the durable queue of
-- processing jobs.
pub mod Leases
pub mod Steps
pub mod Claims
pub mod Rows
pub mod Changes
pub mod Exclusive
pub mod Fairness
pub mod Turns
pub mod Grants
pub mod Retries
use Prim.Native.String.{String}
use g7mediabooster.Base.{
  ℕ, ◌+◌, ◌-◌, ◌*◌, ◌^◌, Bool, true, false, ◌&&◌, ◌||◌, not, List, [], ◌∷◌, ◌++◌, Option, none,
  some, Result, ok, err, reject_if, ok_or, ◌>>=◌, ◌>>◌, Bytes, all, length, is_empty, ltb, leb,
  ◌==◌, eq_bytes, if◌then◌else◌, identifier_byte, try_i64, checked_add_i64, i64_max, find_where,
  update_where, count_where, any,
}
use g7mediabooster.Domain.{UploadId}
use g7mediabooster.Ports.{OffsetDateTime, Duration, unix_timestamp, as_secs, nanos_per_second}
use g7mediabooster.Store.{
  UploadRow, JobState, queued, leased, completed, JobRow, TenantQueueRow, Store, eq_job_state,
  is_bytes,
}

pub data JobQueueError : Type 0 where
  job_queue_error : String → JobQueueError

pub record ProcessingJob : Type 0 where
  pub upload_id : UploadId
  pub preset_id : Bytes
  pub site_policy_revision : Option ℕ

pub record LeasedProcessingJob : Type 0 where
  pub job_id : ℕ
  pub job : ProcessingJob
  pub attempts : ℕ
  pub lease_until : OffsetDateTime
  pub enqueued_at : OffsetDateTime

pub data JobFailureDisposition : Type 0 where
  retry_scheduled dead_letter : JobFailureDisposition

-- `OffsetDateTime::from_unix_timestamp`, which knows the years up to 9999.
abbrev pub from_unix_timestamp : ℕ → Option OffsetDateTime
from_unix_timestamp t = if leb t 253402300799 then some (t * nanos_per_second) else none

unfoldable pub validate_worker_id : Bytes → Result JobQueueError (Unit {0})
validate_worker_id worker_id =
    reject_if
      (is_empty worker_id || ltb 128 (length worker_id) || not (all identifier_byte worker_id))
      (job_queue_error "worker_id is invalid")

-- The end of a lease that starts now, in seconds.
unfoldable pub lease_end : OffsetDateTime → Duration → Result JobQueueError ℕ
lease_end now lease_for = do
  lease_seconds ←
      ok_or (try_i64 (as_secs lease_for)) (job_queue_error "lease duration exceeds SQLite range")
  reject_if (lease_seconds == 0) (job_queue_error "lease duration must be positive")
  ok_or (checked_add_i64 (unix_timestamp now) lease_seconds)
      (job_queue_error "lease expiration overflow")

-- The `WHERE` clause of the candidate: queued and due, or leased with an expired lease.
unfoldable pub expired : ℕ → Option ℕ → Bool
expired now none = false
expired now (some until) = leb until now

unfoldable pub is_eligible : ℕ → JobRow → Bool
unfolding expired
is_eligible now j =
    (eq_job_state j.state queued && leb j.available_at now)
    || (eq_job_state j.state leased && expired now j.lease_until)

-- `COALESCE(tenant_queue_state.last_claim_sequence, 0)`.
unfoldable pub claim_sequence : List TenantQueueRow → Bytes → ℕ
claim_sequence [] tenant = 0
claim_sequence (r ∷ rs) tenant =
    if eq_bytes r.tenant_id tenant then r.last_claim_sequence else claim_sequence rs tenant

pub record Candidate : Type 0 where
  pub job : JobRow
  pub tenant_id : Bytes
  pub sequence : ℕ

-- The join of the eligible jobs with their uploads and the sequences of their tenants.
unfoldable pub candidate_of : Store → JobRow → Option UploadRow → List Candidate
candidate_of s j none = []
candidate_of s j (some u) =
    record {
      job = j;
      tenant_id = u.tenant_id;
      sequence = claim_sequence s.tenant_queue_state u.tenant_id;
    }
    ∷ []

unfoldable pub candidates : Store → ℕ → List JobRow → List Candidate
unfolding candidate_of
candidates s now [] = []
candidates s now (j ∷ js) =
    let rest = candidates s now js in
    if is_eligible now j
    then candidate_of s j (find_where (λ (u : UploadRow). u.id == j.upload_id) s.uploads) ++ rest
    else rest

-- `ORDER BY sequence, available_at, created_at, id`.
unfoldable pub precedes : Candidate → Candidate → Bool
precedes a b =
    ltb a.sequence b.sequence
    || (a.sequence == b.sequence
        && (ltb a.job.available_at b.job.available_at
            || (a.job.available_at == b.job.available_at
                && (ltb a.job.created_at b.job.created_at
                    || (a.job.created_at == b.job.created_at && ltb a.job.id b.job.id)))))

-- `LIMIT 1`.
unfoldable pub first_of_order : Candidate → List Candidate → Candidate
first_of_order best [] = best
first_of_order best (c ∷ cs) = first_of_order (if precedes c best then c else best) cs

unfoldable pub next_candidate : List Candidate → Option Candidate
unfolding first_of_order
next_candidate [] = none
next_candidate (c ∷ cs) = some (first_of_order c cs)

-- `INSERT … ON CONFLICT(tenant_id) DO UPDATE SET last_claim_sequence = excluded…`.
unfoldable pub set_claim_sequence : Bytes → ℕ → List TenantQueueRow → List TenantQueueRow
set_claim_sequence tenant n [] = record { tenant_id = tenant; last_claim_sequence = n } ∷ []
set_claim_sequence tenant n (r ∷ rs) =
    if eq_bytes r.tenant_id tenant
    then record r { last_claim_sequence = n } ∷ rs
    else r ∷ set_claim_sequence tenant n rs

unfoldable pub lease_row : Bytes → ℕ → ℕ → JobRow → JobRow
lease_row worker_id until now j = record j {
  state = leased;
  attempts = j.attempts + 1;
  lease_owner = some worker_id;
  lease_until = some until;
  updated_at = now;
}

-- The transaction of `claim_next` once a candidate is chosen.
unfoldable pub claim : Store → Bytes → ℕ → ℕ → Candidate → Store
unfolding lease_row
claim s worker_id until now c = record s {
  jobs = update_where (λ (j : JobRow). j.id == c.job.id) (lease_row worker_id until now) s.jobs;
  next_claim_sequence = s.next_claim_sequence + 1;
  tenant_queue_state = set_claim_sequence c.tenant_id s.next_claim_sequence s.tenant_queue_state;
}

-- The conversion of the returned row, after the commit.
unfoldable pub leased_job : JobRow → ℕ → Result JobQueueError LeasedProcessingJob
leased_job j until = do
  reject_if (ltb (2 ^ 32 - 1) j.attempts) (job_queue_error "stored attempt count is invalid")
  lease_until ←
      ok_or (from_unix_timestamp until) (job_queue_error "stored lease expiration is invalid")
  enqueued_at ←
      ok_or (from_unix_timestamp j.created_at)
        (job_queue_error "stored job creation time is invalid")
  ok (record {
    job_id = j.id;
    job = record {
      upload_id = j.upload_id;
      preset_id = j.preset_id;
      site_policy_revision = j.site_policy_revision;
    };
    attempts = j.attempts;
    lease_until = lease_until;
    enqueued_at = enqueued_at;
  })

-- `claim_next`. An error of the conversion comes after the commit.
unfoldable pub claimed :
    Store
    → Bytes
    → ℕ
    → ℕ
    → Option Candidate
    → Result JobQueueError (Option LeasedProcessingJob) × Store
claimed s worker_id until now none = (ok none, s)
claimed s worker_id until now (some c) = (
  (do job ← leased_job (lease_row worker_id until now c.job) until; ok (some job)),
  claim s worker_id until now c,
)

unfoldable pub claim_from :
    Store
    → Bytes
    → ℕ
    → Result JobQueueError ℕ
    → Result JobQueueError (Option LeasedProcessingJob) × Store
unfolding claimed
claim_from s worker_id now (err e) = (err e, s)
claim_from s worker_id now (ok until) =
    claimed s worker_id until now (next_candidate (candidates s now s.jobs))

unfoldable pub claim_next :
    Store
    → Bytes
    → OffsetDateTime
    → Duration
    → Result JobQueueError (Option LeasedProcessingJob) × Store
unfolding claim_from
claim_next s worker_id now lease_for =
    claim_from s worker_id (unix_timestamp now)
      (do validate_worker_id worker_id; lease_end now lease_for)
