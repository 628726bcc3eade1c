-- ===== src/Store/Queue/Rows.antt =====
-- What a claim and a renewal do to the row of a job.
use g7mediabooster.Base.{
  ℕ, ◌≡◌, refl, sym, ◌∙◌, subst, ◌⊎◌, inl, inr, Bool, true, List, [], ◌∷◌, ◌++◌, none, some, Result,
  ok, err, Bytes, ◌==◌, ==_iff, find_where, update_where, find_where-update_where, arith,
  if◌then◌else◌, Bool-cases, Option-cases, ◌>>◌, any,
}
use g7mediabooster.Ports.{OffsetDateTime, Duration, unix_timestamp}
use g7mediabooster.Store.{JobRow, Store, completed}
use g7mediabooster.Store.Queue.{
  Candidate, JobQueueError, candidates, next_candidate, is_eligible, lease_row, claim, claimed,
  claim_from, claim_next, validate_worker_id, lease_end,
}
use g7mediabooster.Store.Queue.Leases.{is_owned, is_renewable, renew_from, renew, failed_state}
use g7mediabooster.Store.Queue.Steps.{
  Call, claims, renews, completes, fails, enqueues, job_at, UniqueIds,
}
use g7mediabooster.Store.Queue.Claims.{IsCandidate, next_candidate-IsCandidate, some-row}

-- What a call may do to a row: leave it, or the change of its statement, where the row meets the
-- statement's condition.
abbrev pub RowStep : Call → JobRow → JobRow → Type 0
RowStep (claims worker_id now lease_for) j k =
    (until : ℕ) × (lease_end now lease_for ≡ ok until)
    × (is_eligible (unix_timestamp now) j ≡ true)
    × (k ≡ lease_row worker_id until (unix_timestamp now) j)
RowStep (renews job_id worker_id now lease_for) j k =
    (until : ℕ) × (lease_end now lease_for ≡ ok until)
    × (is_renewable job_id worker_id (unix_timestamp now) j ≡ true)
    × (k ≡ record j { lease_until = some until; updated_at = unix_timestamp now })
RowStep (completes job_id worker_id now) j k =
    (is_owned job_id worker_id j ≡ true)
    × (k ≡ record j {
      state = completed;
      lease_owner = none;
      lease_until = none;
      updated_at = unix_timestamp now;
    })
RowStep (fails job_id worker_id now retry_at max_attempts error_code) j k =
    (is_owned job_id worker_id j ≡ true)
    × (k ≡ record j {
      state = failed_state max_attempts j;
      available_at = unix_timestamp retry_at;
      lease_owner = none;
      lease_until = none;
      last_error_code = some error_code;
      updated_at = unix_timestamp now;
    })
RowStep (enqueues job new_id now) j k = ⊥

-- The row after a call.
abbrev pub Row : Call → ℕ → Store → JobRow → Type 0
Row c id s' j = (k : JobRow) × (job_at id s' ≡ some k) × ((k ≡ j) ⊎ RowStep c j k)

-- The row of a job after an update of the table.
pub update_at :
    (id : ℕ) (p : JobRow → Bool) (f : JobRow → JobRow) (js : List JobRow) {j : JobRow}
    → ((k : JobRow) → (f k).id ≡ k.id)
    → find_where (λ (k : JobRow). k.id == id) js ≡ some j
    → find_where (λ (k : JobRow). k.id == id) (update_where p f js) ≡ some (if p j then f j else j)
update_at id p f js keep h =
    find_where-update_where (λ (k : JobRow). k.id == id) p f js (λ k _. rw (keep k)) ∙ rw h

pub job_at-id :
    (id : ℕ) (js : List JobRow) {j : JobRow}
    → find_where (λ (k : JobRow). k.id == id) js ≡ some j
    → j.id ≡ id
unfolding find_where
job_at-id id [] e = cc
job_at-id id (x ∷ xs) {j} e = ground (arith, job_at-id id xs {j = j})

claim-Row :
    (s : Store) (worker_id : Bytes) (until now : ℕ) (c : Candidate) (id : ℕ) {j : JobRow}
    → IsCandidate s now c
    → job_at id s ≡ some j
    → (k : JobRow) × (job_at id (claim s worker_id until now c) ≡ some k)
      × ((k ≡ j) ⊎ ((is_eligible now j ≡ true) × (k ≡ lease_row worker_id until now j)))
unfolding claim
claim-Row s worker_id until now c id {j} i e = elim (Bool-cases (j.id == c.job.id)) [
  | inl hit ↦
      let same : j ≡ c.job = chosen hit in
      (lease_row worker_id until now j, updated ∙ rw hit, inr (rw same i.eligible, refl))
  | inr miss ↦ (j, updated ∙ rw miss, inl refl)
]
  where
    updated :
        find_where
          (λ (k : JobRow). k.id == id)
          (update_where (λ (k : JobRow). k.id == c.job.id) (lease_row worker_id until now) s.jobs)
        ≡ some (if j.id == c.job.id then lease_row worker_id until now j else j)
    updated =
        update_at id (λ (k : JobRow). k.id == c.job.id) (lease_row worker_id until now) s.jobs
          (λ k. refl) e

    chosen : (j.id == c.job.id) ≡ true → j ≡ c.job
    chosen hit =
        let at : id ≡ c.job.id = sym (job_at-id id s.jobs e) ∙ (==_iff j.id c.job.id).0 hit in
        some-row j c.job (sym e ∙ subst (λ n. job_at n s ≡ some c.job) (sym at) i.keyed)

pub claim_next-Row :
    (s : Store) (worker_id : Bytes) (now : OffsetDateTime) (lease_for : Duration) (id : ℕ)
    {j : JobRow}
    → UniqueIds s.jobs
    → job_at id s ≡ some j
    → Row (claims worker_id now lease_for) id (claim_next s worker_id now lease_for).1 j
unfolding claim_next claim_from claimed
claim_next-Row s worker_id now lease_for id {j} u e =
    checked (validate_worker_id worker_id) (lease_end now lease_for) refl
  where
    checked :
        (v : Result JobQueueError (Unit {0})) (l : Result JobQueueError ℕ)
        → lease_end now lease_for ≡ l
        → (k : JobRow) × (job_at id (claim_from s worker_id (unix_timestamp now) (v >> l)).1
            ≡ some k)
          × ((k ≡ j) ⊎ RowStep (claims worker_id now lease_for) j k)
    checked (err x) l h = (j, e, inl refl)
    checked (ok t) (err x) h = (j, e, inl refl)
    checked (ok t) (ok until) h =
        elim (Option-cases (next_candidate (candidates s (unix_timestamp now) s.jobs))) [
          | inl idle ↦ (j, rw (idle, claimed) e, inl refl)
          | inr (c, chosen) ↦
              let (k, at, step) =
                claim-Row s worker_id until (unix_timestamp now) c id
                  (next_candidate-IsCandidate s (unix_timestamp now) u chosen) e in
              (
                k,
                rw (chosen, claimed) at,
                elim step [ inl same ↦ inl same | inr taken ↦ inr (until, h, taken.0, taken.1) ],
              )
        ]

pub renew-Row :
    (s : Store) (job_id : ℕ) (worker_id : Bytes) (now : OffsetDateTime) (lease_for : Duration)
    (id : ℕ) {j : JobRow}
    → job_at id s ≡ some j
    → Row (renews job_id worker_id now lease_for) id (renew s job_id worker_id now lease_for).1 j
unfolding renew renew_from
renew-Row s job_id worker_id now lease_for id {j} e =
    checked (validate_worker_id worker_id) (lease_end now lease_for) refl
  where
    t : ℕ
    t = unix_timestamp now

    checked :
        (v : Result JobQueueError (Unit {0})) (l : Result JobQueueError ℕ)
        → lease_end now lease_for ≡ l
        → (k : JobRow) × (job_at id (renew_from s job_id worker_id t (v >> l)).1 ≡ some k)
          × ((k ≡ j) ⊎ RowStep (renews job_id worker_id now lease_for) j k)
    checked (err x) l h = (j, e, inl refl)
    checked (ok u) (err x) h = (j, e, inl refl)
    checked (ok u) (ok until) h = elim (Bool-cases (any (is_renewable job_id worker_id t) s.jobs)) [
      | inr refused ↦ (j, rw (refused, renew_from) e, inl refl)
      | inl found ↦ elim (Bool-cases (is_renewable job_id worker_id t j)) [
        | inl hit ↦ (
          record j { lease_until = some until; updated_at = t },
          rw (found, renew_from)
              (update_at id (is_renewable job_id worker_id t) _ s.jobs (λ k. refl) e ∙ rw hit),
          inr (until, h, hit, refl),
        )
        | inr miss ↦ (
          j,
          rw (found, renew_from)
              (update_at id (is_renewable job_id worker_id t) _ s.jobs (λ k. refl) e ∙ rw miss),
          inl refl,
        )
      ]
    ]

-- The row after an update whose change is `f`.
pub owned-Row :
    (id job_id : ℕ) (worker_id : Bytes) (f : JobRow → JobRow) (js : List JobRow) {j : JobRow}
    → ((k : JobRow) → (f k).id ≡ k.id)
    → find_where (λ (k : JobRow). k.id == id) js ≡ some j
    → (k : JobRow) × (find_where
          (λ (k : JobRow). k.id == id)
          (update_where (is_owned job_id worker_id) f js)
        ≡ some k)
      × ((k ≡ j) ⊎ ((is_owned job_id worker_id j ≡ true) × (k ≡ f j)))
owned-Row id job_id worker_id f js {j} keep e = elim (Bool-cases (is_owned job_id worker_id j)) [
  | inl hit ↦ (f j, update_at id (is_owned job_id worker_id) f js keep e ∙ rw hit, inr (hit, refl))
  | inr miss ↦ (j, update_at id (is_owned job_id worker_id) f js keep e ∙ rw miss, inl refl)
]

pub find_where-append :
    (p : JobRow → Bool) (xs ys : List JobRow) {j : JobRow}
    → find_where p xs ≡ some j
    → find_where p (xs ++ ys) ≡ some j
unfolding find_where
find_where-append p [] ys e = cc
find_where-append p (x ∷ xs) ys {j} e = ground (arith, find_where-append p xs ys {j = j})
