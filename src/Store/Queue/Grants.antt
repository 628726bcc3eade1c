-- ===== src/Store/Queue/Grants.antt =====
-- What the answers of the queue say of its rows.
use g7mediabooster.Base.{
  ℕ, ◌+◌, ◌≡◌, ◌≤◌, ◌⊎◌, inl, inr, Bool-cases, leb, refl, sym, ap, ◌∙◌, subst, true, Option, none,
  some, Result, ok, err, Bytes, ◌==◌, ==_iff, arith, ◌*◌, >>=-eq-ok, ◌>>◌,
}
use g7mediabooster.Ports.{OffsetDateTime, Duration, unix_timestamp, as_secs, nanos_per_second}
use g7mediabooster.Store.{
  JobState, queued, leased, completed, dead_letter, JobRow, Store, eq_job_state,
}
use g7mediabooster.Store.Queue.{
  JobQueueError, LeasedProcessingJob, Candidate, candidates, is_eligible, expired, next_candidate,
  claim, claimed, claim_from, claim_next, validate_worker_id, lease_end, leased_job, lease_row,
}
use g7mediabooster.Store.Queue.Steps.{job_at, UniqueIds}
use g7mediabooster.Store.Queue.Claims.{IsCandidate, next_candidate-IsCandidate}
use g7mediabooster.Store.Queue.Rows.{update_at}

-- A job waits and may be tried, or its lease has ended.
abbrev pub Eligible : ℕ → JobRow → Type 0
Eligible now j =
    ((j.state ≡ queued) × (j.available_at ≤ now))
    ⊎ ((j.state ≡ leased) × ((end : ℕ) × (j.lease_until ≡ some end) × (end ≤ now)))

-- The row of a job before and after a claim that gave it to a worker.
pub record IsGrant (s s' : Store) (worker_id : Bytes) (now : ℕ) (until : ℕ)
    (l : LeasedProcessingJob) : Type 0 where
  pub row : JobRow
  pub before : job_at l.job_id s ≡ some row
  pub eligible : Eligible now row
  pub granted : JobRow
  pub after : job_at l.job_id s' ≡ some granted
  pub state : granted.state ≡ leased
  pub owner : granted.lease_owner ≡ some worker_id
  pub lease : granted.lease_until ≡ some until
  pub counted : granted.attempts ≡ row.attempts + 1
  pub same_upload : granted.upload_id ≡ row.upload_id
  pub same_preset : granted.preset_id ≡ row.preset_id
  pub attempts : l.attempts ≡ row.attempts + 1
  pub upload : l.job.upload_id ≡ row.upload_id
  pub preset : l.job.preset_id ≡ row.preset_id
  pub end : l.lease_until ≡ until * nanos_per_second

is_queued : (a : JobState) → eq_job_state a queued ≡ true → a ≡ queued
is_queued queued h = refl
is_queued leased h = cc
is_queued completed h = cc
is_queued dead_letter h = cc

is_leased : (a : JobState) → eq_job_state a leased ≡ true → a ≡ leased
is_leased queued h = cc
is_leased leased h = refl
is_leased completed h = cc
is_leased dead_letter h = cc

is_over : (now : ℕ) (o : Option ℕ) → expired now o ≡ true → (end : ℕ) × (o ≡ some end) × (end ≤ now)
unfolding expired
is_over now none h = cc
is_over now (some end) h = (end, refl, ground (arith, h))

is_eligible-Eligible : (now : ℕ) (j : JobRow) → is_eligible now j ≡ true → Eligible now j
unfolding is_eligible
is_eligible-Eligible now j h = elim (Bool-cases (eq_job_state j.state queued)) [
  | inl waits ↦ elim (Bool-cases (leb j.available_at now)) [
    | inl due ↦ inl (is_queued j.state waits, ground (arith, due))
    | inr early ↦ inr (
      is_leased j.state (ground (arith, h, early)),
      is_over now j.lease_until (ground (arith, h, early)),
    )
  ]
  | inr taken ↦ inr (
    is_leased j.state (ground (arith, h, taken)),
    is_over now j.lease_until (ground (arith, h, taken)),
  )
]

leased_job-eq-ok :
    (j : JobRow) (until : ℕ) (l : LeasedProcessingJob)
    → leased_job j until ≡ ok l
    → (l.job_id ≡ j.id)
      × (l.attempts ≡ j.attempts)
      × (l.job.upload_id ≡ j.upload_id)
      × (l.job.preset_id ≡ j.preset_id)
      × (l.lease_until ≡ until * nanos_per_second)
unfolding leased_job
leased_job-eq-ok j until l h =
    (ground arith, ground arith, ground arith, ground arith, ground arith)

lease_end-sum :
    (now : OffsetDateTime) (lease_for : Duration) (until : ℕ)
    → lease_end now lease_for ≡ ok until
    → until ≡ unix_timestamp now + as_secs lease_for
unfolding lease_end
lease_end-sum now lease_for until h = ground arith

some-job :
    (l m : LeasedProcessingJob)
    → ◌≡◌ {A = Result JobQueueError (Option LeasedProcessingJob)} (ok (some l)) (ok (some m))
    → l ≡ m
some-job l m e = cc

claim-IsGrant :
    (s : Store) (worker_id : Bytes) (until now : ℕ) (c : Candidate) (l : LeasedProcessingJob)
    → IsCandidate s now c
    → leased_job (lease_row worker_id until now c.job) until ≡ ok l
    → IsGrant s (claim s worker_id until now c) worker_id now until l
unfolding claim lease_row
claim-IsGrant s worker_id until now c l i h =
    let (id, attempts, upload, preset, end) =
      leased_job-eq-ok (lease_row worker_id until now c.job) until l h in
    record {
      row = c.job;
      before = subst (λ n. job_at n s ≡ some c.job) (sym id) i.keyed;
      eligible = is_eligible-Eligible now c.job i.eligible;
      granted = lease_row worker_id until now c.job;
      after =
          subst
            (λ n.
              job_at n (claim s worker_id until now c) ≡ some (lease_row worker_id until now c.job))
            (sym id)
            (update_at c.job.id (λ (k : JobRow). k.id == c.job.id) (lease_row worker_id until now)
                s.jobs (λ k. refl) i.keyed
              ∙ rw ((==_iff c.job.id c.job.id).1 refl));
      state = refl;
      owner = refl;
      lease = refl;
      counted = refl;
      same_upload = refl;
      same_preset = refl;
      attempts = attempts;
      upload = upload;
      preset = preset;
      end = end;
    }

-- When a claim answers with a job, a row of that job was queued and due, or leased until a time
-- that has come. The row of that job after the claim is leased, its owner is the worker, its lease
-- ends at the second of the claim plus the seconds of the lease, its attempts are one more, and its
-- upload and preset are the same. The answer has the row's upload, preset, attempts and end of the
-- lease. The job identifiers are unique.
pub claim_next-IsGrant :
    (s : Store) (worker_id : Bytes) (now : OffsetDateTime) (lease_for : Duration)
    (l : LeasedProcessingJob)
    → UniqueIds s.jobs
    → (claim_next s worker_id now lease_for).0 ≡ ok (some l)
    → (until : ℕ) × (until ≡ unix_timestamp now + as_secs lease_for)
      × IsGrant s (claim_next s worker_id now lease_for).1 worker_id (unix_timestamp now) until l
unfolding claim_next claim_from claimed
claim_next-IsGrant s worker_id now lease_for l u h =
    checked (validate_worker_id worker_id) (lease_end now lease_for) refl h
  where
    t : ℕ
    t = unix_timestamp now

    chosen :
        (until : ℕ) (o : Option Candidate)
        → next_candidate (candidates s t s.jobs) ≡ o
        → (claimed s worker_id until t o).0 ≡ ok (some l)
        → IsGrant s (claimed s worker_id until t o).1 worker_id t until l
    chosen until none e h = cc
    chosen until (some c) e h =
        let (m, leases, same) =
          >>=-eq-ok (leased_job (lease_row worker_id until t c.job) until) (λ job. ok (some job))
            h in
        claim-IsGrant s worker_id until t c l (next_candidate-IsCandidate s t u e)
          (leases ∙ ap ok (some-job m l same))

    checked :
        (v : Result JobQueueError (Unit {0})) (r : Result JobQueueError ℕ)
        → lease_end now lease_for ≡ r
        → (claim_from s worker_id t (v >> r)).0 ≡ ok (some l)
        → (until : ℕ) × (until ≡ unix_timestamp now + as_secs lease_for)
          × IsGrant s (claim_from s worker_id t (v >> r)).1 worker_id t until l
    checked (err x) r e h = cc
    checked (ok y) (err x) e h = cc
    checked (ok y) (ok until) e h = (
      until,
      lease_end-sum now lease_for until e,
      chosen until (next_candidate (candidates s t s.jobs)) refl h,
    )
