-- ===== src/Store/Queue/Fairness.antt =====
-- Tenants take turns: the claim sequences, and whom a claim serves.
use g7mediabooster.Base.{
  ℕ, ◌+◌, ◌<◌, ◌≡◌, refl, ◌≢◌, ◌⊎◌, inl, inr, Bool, false, List, [], ◌∷◌, Option, none, some,
  Result, ok, err, Bytes, any, arith, eq_bytes, eq_bytes_eq, eq_bytes_refl, Bool-cases, ◌>>◌,
}
use g7mediabooster.Ports.{OffsetDateTime, Duration, unix_timestamp}
use g7mediabooster.Store.{TenantQueueRow, Store}
use g7mediabooster.Store.Queue.{
  JobQueueError, ProcessingJob, JobFailureDisposition, Candidate, claim_sequence,
  set_claim_sequence, candidates, next_candidate, claim, claimed, claim_from, claim_next,
  validate_worker_id, lease_end,
}
use g7mediabooster.Store.Queue.Leases.{renew_from, renew, complete, fail, enqueue, is_renewable}
use g7mediabooster.Store.Queue.Steps.{Call, claims, renews, completes, fails, enqueues, apply}
use g7mediabooster.Store.Queue.Changes.{kept-cases, kept_pair-cases}

-- The sequence of a tenant's last claim, or 0.
abbrev pub sequence_of : Bytes → Store → ℕ
sequence_of tenant s = claim_sequence s.tenant_queue_state tenant

-- Every sequence is older than the next one.
abbrev pub IsBounded : Store → Type 0
IsBounded s = (tenant : Bytes) → sequence_of tenant s < s.next_claim_sequence

abbrev pub tenant_of_choice : Option Candidate → Option Bytes
tenant_of_choice none = none
tenant_of_choice (some c) = some c.tenant_id

abbrev pub served_from : Store → ℕ → Result JobQueueError ℕ → Option Bytes
served_from s now (err e) = none
served_from s now (ok until) = tenant_of_choice (next_candidate (candidates s now s.jobs))

-- The tenant whose job a call leases.
unfoldable pub served : Store → Call → Option Bytes
served s (claims worker_id now lease_for) =
    served_from s (unix_timestamp now) (validate_worker_id worker_id >> lease_end now lease_for)
served s (renews job_id worker_id now lease_for) = none
served s (completes job_id worker_id now) = none
served s (fails job_id worker_id now retry_at max_attempts error_code) = none
served s (enqueues job new_id now) = none

-- No call of a list leases a job of the tenant.
abbrev pub IsUnserved : Bytes → Store → List Call → Type 0
IsUnserved tenant s [] = Unit
IsUnserved tenant s (c ∷ cs) = (served s c ≢ some tenant) × IsUnserved tenant (apply s c) cs

-- The tenant has a job that can be claimed.
abbrev pub is_waiting : Bytes → Store → ℕ → Bool
is_waiting tenant s now =
    any (λ (c : Candidate). eq_bytes c.tenant_id tenant) (candidates s now s.jobs)

pub sequence-set_same :
    (tenant : Bytes) (n : ℕ) (rs : List TenantQueueRow)
    → claim_sequence (set_claim_sequence tenant n rs) tenant ≡ n
unfolding claim_sequence set_claim_sequence
sequence-set_same tenant n [] = ground (arith, eq_bytes_refl tenant)
sequence-set_same tenant n (r ∷ rs) = ground (arith, sequence-set_same tenant n rs)

pub sequence-set_other :
    (tenant other : Bytes) (n : ℕ) (rs : List TenantQueueRow)
    → eq_bytes tenant other ≡ false
    → claim_sequence (set_claim_sequence tenant n rs) other ≡ claim_sequence rs other
unfolding claim_sequence set_claim_sequence
sequence-set_other tenant other n [] h = ground arith
sequence-set_other tenant other n (r ∷ rs) h = elim (Bool-cases (eq_bytes r.tenant_id tenant)) [
  | inl same ↦
      let missed : eq_bytes r.tenant_id other ≡ false =
        rw (eq_bytes_eq r.tenant_id tenant same) h in
      rw (same, missed)
  | inr different ↦ ground (arith, sequence-set_other tenant other n rs h)
]

abbrev pub Untouched : Store → Store → Type 0
Untouched s s' =
    (s'.tenant_queue_state ≡ s.tenant_queue_state)
    × (s'.next_claim_sequence ≡ s.next_claim_sequence)

complete-Untouched :
    (s s' : Store) (job_id : ℕ) (worker_id : Bytes) (now : OffsetDateTime)
    → complete s job_id worker_id now ≡ ok s'
    → Untouched s s'
unfolding complete
complete-Untouched s s' job_id worker_id now h = (ground arith, ground arith)

fail-Untouched :
    (s s' : Store) (job_id : ℕ) (worker_id : Bytes) (now retry_at : OffsetDateTime)
    (max_attempts : ℕ) (error_code : Bytes) (d : JobFailureDisposition)
    → fail s job_id worker_id now retry_at max_attempts error_code ≡ ok (d, s')
    → Untouched s s'
unfolding fail
fail-Untouched s s' job_id worker_id now retry_at max_attempts error_code d h =
    (ground arith, ground arith)

enqueue-Untouched :
    (s s' : Store) (job : ProcessingJob) (new_id : ℕ) (now : OffsetDateTime)
    → enqueue s job new_id now ≡ ok s'
    → Untouched s s'
unfolding enqueue
enqueue-Untouched s s' job new_id now h = (ground arith, ground arith)

renew-Untouched :
    (s : Store) (job_id : ℕ) (worker_id : Bytes) (now : OffsetDateTime) (lease_for : Duration)
    → Untouched s (renew s job_id worker_id now lease_for).1
unfolding renew renew_from
renew-Untouched s job_id worker_id now lease_for =
    checked (validate_worker_id worker_id >> lease_end now lease_for)
  where
    t : ℕ
    t = unix_timestamp now

    checked : (r : Result JobQueueError ℕ) → Untouched s (renew_from s job_id worker_id t r).1
    checked (err e) = (refl, refl)
    checked (ok until) = elim (Bool-cases (any (is_renewable job_id worker_id t) s.jobs)) [
      | inl found ↦ rw (found, renew_from) (refl, refl)
      | inr refused ↦ rw (refused, renew_from) (refl, refl)
    ]

-- What a call does to the sequences.
abbrev pub SequenceStep : Store → Option Bytes → Store → Type 0
SequenceStep s o s' =
    ((o ≡ none) × Untouched s s')
    ⊎ ((tenant : Bytes) × (o ≡ some tenant)
        × (s'.tenant_queue_state
            ≡ set_claim_sequence tenant s.next_claim_sequence s.tenant_queue_state)
        × (s'.next_claim_sequence ≡ s.next_claim_sequence + 1))

claims-Sequences :
    (s : Store) (worker_id : Bytes) (now : OffsetDateTime) (lease_for : Duration)
    → SequenceStep s
        (served s (claims worker_id now lease_for))
        (claim_next s worker_id now lease_for).1
unfolding claim_next claim_from claimed claim served
claims-Sequences s worker_id now lease_for =
    checked (validate_worker_id worker_id >> lease_end now lease_for)
  where
    t : ℕ
    t = unix_timestamp now

    chosen :
        (until : ℕ) (o : Option Candidate)
        → SequenceStep s (tenant_of_choice o) (claimed s worker_id until t o).1
    chosen until none = inl (refl, (refl, refl))
    chosen until (some c) = inr (c.tenant_id, refl, refl, refl)

    checked :
        (r : Result JobQueueError ℕ)
        → SequenceStep s (served_from s t r) (claim_from s worker_id t r).1
    checked (err e) = inl (refl, (refl, refl))
    checked (ok until) = chosen until (next_candidate (candidates s t s.jobs))

-- Only a claim that serves a tenant changes the sequences, and it gives that tenant the next one.
pub apply-Sequences : (s : Store) (c : Call) → SequenceStep s (served s c) (apply s c)
unfolding apply served
apply-Sequences s (claims worker_id now lease_for) = claims-Sequences s worker_id now lease_for
apply-Sequences s (renews job_id worker_id now lease_for) =
    inl (refl, renew-Untouched s job_id worker_id now lease_for)
apply-Sequences s (completes job_id worker_id now) = inl (
  refl,
  kept-cases (Untouched s) s _ (refl, refl) λ s'. complete-Untouched s s' job_id worker_id now,
)
apply-Sequences s (fails job_id worker_id now retry_at max_attempts error_code) = inl (
  refl,
  kept_pair-cases (Untouched s) s _ (refl, refl)
      λ d s'. fail-Untouched s s' job_id worker_id now retry_at max_attempts error_code d,
)
apply-Sequences s (enqueues job new_id now) =
    inl
      (refl, kept-cases (Untouched s) s _ (refl, refl) λ s'. enqueue-Untouched s s' job new_id now)
