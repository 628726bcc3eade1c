-- ===== src/Store/Queue/Exclusive.antt =====
-- What a lease is worth: while it lives, nobody else changes its job; and a job that is completed
-- or dead-lettered stays so.
use g7mediabooster.Base.{
  ℕ, ◌<◌, ◌≡◌, ◌≢◌, ◌⊎◌, inl, inr, true, List, [], ◌∷◌, some, Bytes, All, arith, ◌∙◌, eq_bytes,
  eq_bytes_eq, sym, ap,
}
use g7mediabooster.Ports.{unix_timestamp}
use g7mediabooster.Store.{JobRow, Store, leased, completed, dead_letter}
use g7mediabooster.Store.Queue.{is_eligible, expired}
use g7mediabooster.Store.Queue.Leases.{is_owned, is_renewable}
use g7mediabooster.Store.Queue.Steps.{
  Call, claims, renews, completes, fails, enqueues, apply, apply_all, job_at, UniqueIds,
}
use g7mediabooster.Store.Queue.Rows.{RowStep}
use g7mediabooster.Store.Queue.Changes.{apply-Row, apply-UniqueIds}

-- The lease of a worker, until a second.
pub record HasLease (worker_id : Bytes) (until : ℕ) (j : JobRow) : Type 0 where
  pub leased_state : j.state ≡ leased
  pub owner : j.lease_owner ≡ some worker_id
  pub end : j.lease_until ≡ some until

-- A call of somebody else; a claim of it is made before the lease ends.
abbrev pub IsForeign : Bytes → ℕ → Call → Type 0
IsForeign w until (claims v now lease_for) = unix_timestamp now < until
IsForeign w until (renews job_id v now lease_for) = v ≢ w
IsForeign w until (completes job_id v now) = v ≢ w
IsForeign w until (fails job_id v now retry_at max_attempts error_code) = v ≢ w
IsForeign w until (enqueues job new_id now) = Unit

abbrev pub IsSettled : JobRow → Type 0
IsSettled j = (j.state ≡ completed) ⊎ (j.state ≡ dead_letter)

not_eligible :
    {w : Bytes} {until now : ℕ} (j : JobRow)
    → HasLease w until j
    → now < until
    → is_eligible now j ≡ true
    → ⊥
unfolding is_eligible expired
not_eligible j l before h = ground (arith, l.leased_state, l.end)

not_owned :
    {w v : Bytes} {until : ℕ} (job_id : ℕ) (j : JobRow)
    → HasLease w until j
    → v ≢ w
    → is_owned job_id v j ≡ true
    → ⊥
unfolding is_owned
not_owned {w} {v} job_id j l other h =
    let same : eq_bytes w v ≡ true = ground (arith, l.owner) in other (sym (eq_bytes_eq w v same))

foreign-step :
    (w : Bytes) (until : ℕ) (c : Call) (j k : JobRow)
    → HasLease w until j
    → IsForeign w until c
    → RowStep c j k
    → ⊥
unfolding is_renewable
foreign-step w until (claims v now lease_for) j k l f (_, _, h, _) = not_eligible j l f h
foreign-step w until (renews job_id v now lease_for) j k l f (_, _, h, _) =
    not_owned job_id j l f (ground arith)
foreign-step w until (completes job_id v now) j k l f (h, _) = not_owned job_id j l f h
foreign-step w until (fails job_id v now retry_at max_attempts error_code) j k l f (h, _) =
    not_owned job_id j l f h
foreign-step w until (enqueues job new_id now) j k l f x = elim x [ ]

settled-step : (c : Call) (j k : JobRow) → IsSettled j → RowStep c j k → ⊥
unfolding is_renewable is_owned is_eligible
settled-step (claims v now lease_for) j k h (_, _, e, _) = ground arith
settled-step (renews job_id v now lease_for) j k h (_, _, e, _) = ground arith
settled-step (completes job_id v now) j k h (e, _) = ground arith
settled-step (fails job_id v now retry_at max_attempts error_code) j k h (e, _) = ground arith
settled-step (enqueues job new_id now) j k h x = elim x [ ]

-- A row that no call of a list may change stays as it is.
unchanged-apply_all :
    (s : Store) (cs : List Call) (id : ℕ) {j : JobRow}
    → UniqueIds s.jobs
    → job_at id s ≡ some j
    → All (λ c. (k : JobRow) → RowStep c j k → ⊥) cs
    → job_at id (apply_all s cs) ≡ some j
unfolding apply_all
unchanged-apply_all s [] id u e h = e
unchanged-apply_all s (c ∷ cs) id {j} u e h =
    let (k, at, change) = apply-Row s c id u e in
    unchanged-apply_all (apply s c) cs id (apply-UniqueIds s c u)
      (elim change [ inl same ↦ at ∙ ap some same | inr step ↦ absurd (h.0 k step) ]) h.1

-- While a job is leased to a worker, no sequence of calls changes its row, where every claim is
-- made before the lease ends, every renewal, completion and failure is another worker's, and
-- enqueues are free: at most one worker holds a job. The job identifiers are unique.
pub lease_is_exclusive :
    (s : Store) (cs : List Call) (id : ℕ) (worker_id : Bytes) (until : ℕ) (j : JobRow)
    → UniqueIds s.jobs
    → job_at id s ≡ some j
    → HasLease worker_id until j
    → All (IsForeign worker_id until) cs
    → job_at id (apply_all s cs) ≡ some j
lease_is_exclusive s cs id worker_id until j u e l f =
    unchanged-apply_all s cs id u e (refused cs f)
  where
    refused :
        (cs : List Call)
        → All (IsForeign worker_id until) cs
        → All (λ c. (k : JobRow) → RowStep c j k → ⊥) cs
    refused [] f = tt
    refused (c ∷ cs) f = ((λ k. foreign-step worker_id until c j k l f.0), refused cs f.1)

-- A job that is completed or dead-lettered keeps its row through every sequence of calls: it is
-- never claimed, renewed, completed or failed again. The job identifiers are unique.
pub settled_is_final :
    (s : Store) (cs : List Call) (id : ℕ) (j : JobRow)
    → UniqueIds s.jobs
    → job_at id s ≡ some j
    → IsSettled j
    → job_at id (apply_all s cs) ≡ some j
settled_is_final s cs id j u e h = unchanged-apply_all s cs id u e (refused cs)
  where
    refused : (cs : List Call) → All (λ c. (k : JobRow) → RowStep c j k → ⊥) cs
    refused [] = tt
    refused (c ∷ cs) = ((λ k. settled-step c j k h), refused cs)
