-- ===== src/Store/Queue/Changes.antt =====
-- What each call of the queue does to the rows and to the table of the jobs.
use g7mediabooster.Base.{
  ℕ, ◌≡◌, refl, sym, ◌≢◌, ◌⊎◌, inl, inr, Bool, false, List, [], ◌∷◌, ◌++◌, Option, none, some,
  Result, ok, err, Bytes, All, All-append, update_where, arith, Bool-cases, ◌>>◌, any,
}
use g7mediabooster.Ports.{OffsetDateTime, Duration, unix_timestamp}
use g7mediabooster.Store.{JobRow, Store, completed}
use g7mediabooster.Store.Queue.{
  JobFailureDisposition, ProcessingJob, Candidate, JobQueueError, candidates, next_candidate, claim,
  claimed, claim_from, claim_next, validate_worker_id, lease_end,
}
use g7mediabooster.Store.Queue.Leases.{
  conflicts, new_job, is_owned, is_renewable, renew_from, renew, complete, failed_state, fail,
  enqueue,
}
use g7mediabooster.Store.Queue.Steps.{
  Call, claims, renews, completes, fails, enqueues, kept, kept_pair, apply, job_at, UniqueIds,
  UniqueIds-update,
}
use g7mediabooster.Store.Queue.Rows.{Row, claim_next-Row, renew-Row, owned-Row, find_where-append}

pub kept-cases :
    (P : Store → Type 0) (s : Store) (r : Result JobQueueError Store)
    → P s
    → ((s' : Store) → r ≡ ok s' → P s')
    → P (kept s r)
kept-cases P s (ok s') same changed = changed s' refl
kept-cases P s (err e) same changed = same

pub kept_pair-cases :
    (P : Store → Type 0) {A : Type 0} (s : Store) (r : Result JobQueueError (A × Store))
    → P s
    → ((a : A) (s' : Store) → r ≡ ok (a, s') → P s')
    → P (kept_pair s r)
kept_pair-cases P s (ok (a, s')) same changed = changed a s' refl
kept_pair-cases P s (err e) same changed = same

complete-eq-ok :
    (s s' : Store) (job_id : ℕ) (worker_id : Bytes) (now : OffsetDateTime)
    → complete s job_id worker_id now ≡ ok s'
    → s'.jobs
      ≡ update_where
          (is_owned job_id worker_id)
          (λ (j : JobRow). record j {
            state = completed;
            lease_owner = none;
            lease_until = none;
            updated_at = unix_timestamp now;
          })
          s.jobs
unfolding complete
complete-eq-ok s s' job_id worker_id now h = ground arith

pub fail-eq-ok :
    (s s' : Store) (job_id : ℕ) (worker_id : Bytes) (now retry_at : OffsetDateTime)
    (max_attempts : ℕ) (error_code : Bytes) (d : JobFailureDisposition)
    → fail s job_id worker_id now retry_at max_attempts error_code ≡ ok (d, s')
    → s'.jobs
      ≡ update_where
          (is_owned job_id worker_id)
          (λ (j : JobRow). record j {
            state = failed_state max_attempts j;
            available_at = unix_timestamp retry_at;
            lease_owner = none;
            lease_until = none;
            last_error_code = some error_code;
            updated_at = unix_timestamp now;
          })
          s.jobs
unfolding fail
fail-eq-ok s s' job_id worker_id now retry_at max_attempts error_code d h = ground arith

pub enqueue-eq-ok :
    (s s' : Store) (job : ProcessingJob) (new_id : ℕ) (now : OffsetDateTime)
    → enqueue s job new_id now ≡ ok s'
    → (s'.jobs ≡ s.jobs)
      ⊎ ((any (conflicts job new_id) s.jobs ≡ false)
          × (s'.jobs ≡ s.jobs ++ new_job job new_id (unix_timestamp now) ∷ []))
unfolding enqueue
enqueue-eq-ok s s' job new_id now h = ground arith

complete-Row :
    (s : Store) (job_id : ℕ) (worker_id : Bytes) (now : OffsetDateTime) (id : ℕ) {j : JobRow}
    → job_at id s ≡ some j
    → Row (completes job_id worker_id now) id (kept s (complete s job_id worker_id now)) j
complete-Row s job_id worker_id now id {j} e =
    kept-cases (λ s'. Row (completes job_id worker_id now) id s' j) s _ (j, e, inl refl)
      λ s' h.
        rw (complete-eq-ok s s' job_id worker_id now h)
          (owned-Row id job_id worker_id _ s.jobs (λ k. refl) e)

fail-Row :
    (s : Store) (job_id : ℕ) (worker_id : Bytes) (now retry_at : OffsetDateTime) (max_attempts : ℕ)
    (error_code : Bytes) (id : ℕ) {j : JobRow}
    → job_at id s ≡ some j
    → Row
        (fails job_id worker_id now retry_at max_attempts error_code)
        id
        (kept_pair s (fail s job_id worker_id now retry_at max_attempts error_code))
        j
fail-Row s job_id worker_id now retry_at max_attempts error_code id {j} e =
    kept_pair-cases
      (λ s'. Row (fails job_id worker_id now retry_at max_attempts error_code) id s' j) s _
      (j, e, inl refl)
      λ d s' h.
        rw (fail-eq-ok s s' job_id worker_id now retry_at max_attempts error_code d h)
          (owned-Row id job_id worker_id _ s.jobs (λ k. refl) e)

enqueue-Row :
    (s : Store) (job : ProcessingJob) (new_id : ℕ) (now : OffsetDateTime) (id : ℕ) {j : JobRow}
    → job_at id s ≡ some j
    → Row (enqueues job new_id now) id (kept s (enqueue s job new_id now)) j
enqueue-Row s job new_id now id {j} e =
    kept-cases (λ s'. Row (enqueues job new_id now) id s' j) s _ (j, e, inl refl)
      λ s' h. elim (enqueue-eq-ok s s' job new_id now h) [
        | inl same ↦ (j, rw same e, inl refl)
        | inr (fresh, added) ↦ (j, rw added (find_where-append _ s.jobs _ e), inl refl)
      ]

-- Every call leaves the row of every job as it was, or makes the change of its statement on a row
-- that meets the statement's condition.
pub apply-Row :
    (s : Store) (c : Call) (id : ℕ) {j : JobRow}
    → UniqueIds s.jobs
    → job_at id s ≡ some j
    → Row c id (apply s c) j
unfolding apply
apply-Row s (claims worker_id now lease_for) id u e =
    claim_next-Row s worker_id now lease_for id u e
apply-Row s (renews job_id worker_id now lease_for) id u e =
    renew-Row s job_id worker_id now lease_for id e
apply-Row s (completes job_id worker_id now) id u e = complete-Row s job_id worker_id now id e
apply-Row s (fails job_id worker_id now retry_at max_attempts error_code) id u e =
    fail-Row s job_id worker_id now retry_at max_attempts error_code id e
apply-Row s (enqueues job new_id now) id u e = enqueue-Row s job new_id now id e

-- What each call does to the table: an update that keeps the identifiers, or one more row under an
-- identifier that is not there.
pub data TableStep (js : List JobRow) : List JobRow → Type 0 where
  unchanged : TableStep js js
  updated :
      (p : JobRow → Bool) (f : JobRow → JobRow)
      → ((j : JobRow) → (f j).id ≡ j.id)
      → TableStep js (update_where p f js)
  added : (j : JobRow) → All (λ (k : JobRow). k.id ≢ j.id) js → TableStep js (js ++ j ∷ [])

claim_next-TableStep :
    (s : Store) (worker_id : Bytes) (now : OffsetDateTime) (lease_for : Duration)
    → TableStep s.jobs (claim_next s worker_id now lease_for).1.jobs
unfolding claim_next claim_from claimed claim
claim_next-TableStep s worker_id now lease_for =
    checked (validate_worker_id worker_id >> lease_end now lease_for)
  where
    t : ℕ
    t = unix_timestamp now

    chosen :
        (until : ℕ) (c : Option Candidate) → TableStep s.jobs (claimed s worker_id until t c).1.jobs
    chosen until none = unchanged
    chosen until (some c) = updated _ _ (λ j. refl)

    checked : (r : Result JobQueueError ℕ) → TableStep s.jobs (claim_from s worker_id t r).1.jobs
    checked (err e) = unchanged
    checked (ok until) = chosen until (next_candidate (candidates s t s.jobs))

renew-TableStep :
    (s : Store) (job_id : ℕ) (worker_id : Bytes) (now : OffsetDateTime) (lease_for : Duration)
    → TableStep s.jobs (renew s job_id worker_id now lease_for).1.jobs
unfolding renew renew_from
renew-TableStep s job_id worker_id now lease_for =
    checked (validate_worker_id worker_id >> lease_end now lease_for)
  where
    t : ℕ
    t = unix_timestamp now

    checked :
        (r : Result JobQueueError ℕ) → TableStep s.jobs (renew_from s job_id worker_id t r).1.jobs
    checked (err e) = unchanged
    checked (ok until) = elim (Bool-cases (any (is_renewable job_id worker_id t) s.jobs)) [
      | inl found ↦ rw (found, renew_from) (updated _ _ (λ j. refl))
      | inr refused ↦ rw (refused, renew_from) unchanged
    ]

no_conflict :
    (job : ProcessingJob) (new_id : ℕ) (js : List JobRow)
    → any (conflicts job new_id) js ≡ false
    → All (λ (k : JobRow). k.id ≢ new_id) js
no_conflict job new_id [] h = tt
no_conflict job new_id (j ∷ js) h = (ground arith, no_conflict job new_id js (ground arith))

apply-TableStep : (s : Store) (c : Call) → TableStep s.jobs (apply s c).jobs
unfolding apply
apply-TableStep s (claims worker_id now lease_for) = claim_next-TableStep s worker_id now lease_for
apply-TableStep s (renews job_id worker_id now lease_for) =
    renew-TableStep s job_id worker_id now lease_for
apply-TableStep s (completes job_id worker_id now) =
    kept-cases (λ s'. TableStep s.jobs s'.jobs) s _ unchanged
      λ s' h. rw (complete-eq-ok s s' job_id worker_id now h) (updated _ _ (λ j. refl))
apply-TableStep s (fails job_id worker_id now retry_at max_attempts error_code) =
    kept_pair-cases (λ s'. TableStep s.jobs s'.jobs) s _ unchanged
      λ d s' h.
        rw (fail-eq-ok s s' job_id worker_id now retry_at max_attempts error_code d h)
          (updated _ _ (λ j. refl))
apply-TableStep s (enqueues job new_id now) =
    kept-cases (λ s'. TableStep s.jobs s'.jobs) s _ unchanged
      λ s' h. elim (enqueue-eq-ok s s' job new_id now h) [
        | inl same ↦ rw same unchanged
        | inr (fresh, more) ↦ rw more (added _ (no_conflict job new_id s.jobs fresh))
      ]

UniqueIds-append :
    (js : List JobRow) (j : JobRow)
    → UniqueIds js
    → All (λ (k : JobRow). k.id ≢ j.id) js
    → UniqueIds (js ++ j ∷ [])
UniqueIds-append [] j u n = (tt, tt)
UniqueIds-append (x ∷ xs) j u n = (
  All-append (λ (k : JobRow). k.id ≢ x.id) xs (j ∷ []) u.0 ((λ e. n.0 (sym e)), tt),
  UniqueIds-append xs j u.1 n.1,
)

TableStep-UniqueIds : {js ks : List JobRow} → TableStep js ks → UniqueIds js → UniqueIds ks
TableStep-UniqueIds unchanged u = u
TableStep-UniqueIds {js} (updated p f keep) u = UniqueIds-update p f js keep u
TableStep-UniqueIds {js} (added j n) u = UniqueIds-append js j u n

-- No call of the queue breaks the primary key of the jobs.
pub apply-UniqueIds : (s : Store) (c : Call) → UniqueIds s.jobs → UniqueIds (apply s c).jobs
apply-UniqueIds s c u = TableStep-UniqueIds (apply-TableStep s c) u
