-- ===== src/Store/Queue/Steps.antt =====
-- The operations of the queue as steps of one store, and the row of a job.
use g7mediabooster.Base.{
  ℕ, ◌≡◌, refl, ◌≢◌, Bool, true, false, List, [], ◌∷◌, Option, some, Result, ok, err, Bytes, ◌==◌,
  All, find_where, update_where, All-update_where, arith, if◌then◌else◌, sym, ◌∙◌, subst,
}
use g7mediabooster.Ports.{OffsetDateTime, Duration}
use g7mediabooster.Store.{JobRow, Store}
use g7mediabooster.Store.Queue.{ProcessingJob, claim_next, JobQueueError}
use g7mediabooster.Store.Queue.Leases.{renew, complete, fail, enqueue}

-- One call of the queue, with its arguments and what it reads from the clock.
pub data Call : Type 0 where
  claims : Bytes → OffsetDateTime → Duration → Call
  renews : ℕ → Bytes → OffsetDateTime → Duration → Call
  completes : ℕ → Bytes → OffsetDateTime → Call
  fails : ℕ → Bytes → OffsetDateTime → OffsetDateTime → ℕ → Bytes → Call
  enqueues : ProcessingJob → ℕ → OffsetDateTime → Call

abbrev pub kept : Store → Result JobQueueError Store → Store
kept s (ok s') = s'
kept s (err e) = s

abbrev pub kept_pair : {A : Type 0} → Store → Result JobQueueError (A × Store) → Store
kept_pair s (ok (a, s')) = s'
kept_pair s (err e) = s

-- The store after a call; a call that fails before its statement leaves it as it was.
unfoldable pub apply : Store → Call → Store
apply s (claims worker_id now lease_for) = (claim_next s worker_id now lease_for).1
apply s (renews job_id worker_id now lease_for) = (renew s job_id worker_id now lease_for).1
apply s (completes job_id worker_id now) = kept s (complete s job_id worker_id now)
apply s (fails job_id worker_id now retry_at max_attempts error_code) =
    kept_pair s (fail s job_id worker_id now retry_at max_attempts error_code)
apply s (enqueues job new_id now) = kept s (enqueue s job new_id now)

unfoldable pub apply_all : Store → List Call → Store
apply_all s [] = s
apply_all s (c ∷ cs) = apply_all (apply s c) cs

-- The row of a job.
abbrev pub job_at : ℕ → Store → Option JobRow
job_at id s = find_where (λ (j : JobRow). j.id == id) s.jobs

-- The primary key: no two rows have one identifier.
abbrev pub UniqueIds : List JobRow → Type 0
UniqueIds [] = Unit
UniqueIds (j ∷ js) = All (λ (k : JobRow). k.id ≢ j.id) js × UniqueIds js

abbrev pub Keyed : List JobRow → JobRow → Type 0
Keyed js j = find_where (λ (k : JobRow). k.id == j.id) js ≡ some j

Keyed-cons :
    (x : JobRow) (xs js : List JobRow)
    → All (λ (k : JobRow). k.id ≢ x.id) xs
    → All (Keyed js) xs
    → All (Keyed (x ∷ js)) xs
unfolding find_where
Keyed-cons x [] js n h = tt
Keyed-cons x (y ∷ xs) js n h = (ground arith, Keyed-cons x xs js n.1 h.1)

-- Under the primary key every row is found by its identifier.
pub UniqueIds-Keyed : (js : List JobRow) → UniqueIds js → All (Keyed js) js
unfolding find_where
UniqueIds-Keyed [] u = tt
UniqueIds-Keyed (x ∷ xs) u = (ground arith, Keyed-cons x xs xs u.0 (UniqueIds-Keyed xs u.1))

ids_differ-update :
    (p : JobRow → Bool) (f : JobRow → JobRow) (id : ℕ) (js : List JobRow)
    → ((j : JobRow) → (f j).id ≡ j.id)
    → All (λ (k : JobRow). k.id ≢ id) js
    → All (λ (k : JobRow). k.id ≢ id) (update_where p f js)
ids_differ-update p f id js keep h = All-update_where p f js (λ j _ n e. n (sym (keep j) ∙ e)) h

pub UniqueIds-update :
    (p : JobRow → Bool) (f : JobRow → JobRow) (js : List JobRow)
    → ((j : JobRow) → (f j).id ≡ j.id)
    → UniqueIds js
    → UniqueIds (update_where p f js)
unfolding update_where
UniqueIds-update p f [] keep u = tt
UniqueIds-update p f (x ∷ xs) keep u = (
  subst (λ n. All (λ (k : JobRow). k.id ≢ n) (update_where p f xs)) (same_id (p x))
      (ids_differ-update p f x.id xs keep u.0),
  UniqueIds-update p f xs keep u.1,
)
  where
    same_id : (b : Bool) → x.id ≡ (if b then f x else x).id
    same_id true = sym (keep x)
    same_id false = refl
