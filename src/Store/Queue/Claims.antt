-- ===== src/Store/Queue/Claims.antt =====
-- Which job a claim leases, and what each call does to the row of a job.
use g7mediabooster.Base.{
  ℕ, ◌≡◌, subst, inl, inr, true, List, [], ◌∷◌, Option, none, some, All, All-append, Bool-cases,
}
use g7mediabooster.Store.{UploadRow, JobRow, Store}
use g7mediabooster.Store.Queue.{
  Candidate, candidates, candidate_of, precedes, first_of_order, next_candidate, is_eligible,
}
use g7mediabooster.Store.Queue.Steps.{UniqueIds, Keyed, UniqueIds-Keyed}

-- A candidate is a row of the table, and is eligible.
pub record IsCandidate (s : Store) (now : ℕ) (c : Candidate) : Type 0 where
  pub eligible : is_eligible now c.job ≡ true
  pub keyed : Keyed s.jobs c.job

candidate_of-All :
    (s : Store) (now : ℕ) (j : JobRow) (u : Option UploadRow)
    → is_eligible now j ≡ true
    → Keyed s.jobs j
    → All (IsCandidate s now) (candidate_of s j u)
unfolding candidate_of
candidate_of-All s now j none e k = tt
candidate_of-All s now j (some u) e k = (record { eligible = e; keyed = k }, tt)

candidates-IsCandidate :
    (s : Store) (now : ℕ) (js : List JobRow)
    → All (Keyed s.jobs) js
    → All (IsCandidate s now) (candidates s now js)
unfolding candidates
candidates-IsCandidate s now [] h = tt
candidates-IsCandidate s now (j ∷ js) h = elim (Bool-cases (is_eligible now j)) [
  | inl eligible ↦ rw eligible (
      All-append (IsCandidate s now) (candidate_of s j _) (candidates s now js)
        (candidate_of-All s now j _ eligible h.0) (candidates-IsCandidate s now js h.1))
  | inr other ↦ rw other (candidates-IsCandidate s now js h.1)
]

pub first_of_order-All :
    (P : Candidate → Type 0) (c : Candidate) (cs : List Candidate)
    → P c
    → All P cs
    → P (first_of_order c cs)
unfolding first_of_order
first_of_order-All P c [] h k = h
first_of_order-All P c (d ∷ cs) h k = elim (Bool-cases (precedes d c)) [
  | inl earlier ↦ rw earlier (first_of_order-All P d cs k.0 k.1)
  | inr later ↦ rw later (first_of_order-All P c cs h k.1)
]

pub some-eq : (c d : Candidate) → some c ≡ some d → c ≡ d
some-eq c d e = cc

pub some-row : (c d : JobRow) → some c ≡ some d → c ≡ d
some-row c d e = cc

-- The job that a claim chooses is an eligible row of the table.
pub next_candidate-IsCandidate :
    (s : Store) (now : ℕ) {c : Candidate}
    → UniqueIds s.jobs
    → next_candidate (candidates s now s.jobs) ≡ some c
    → IsCandidate s now c
unfolding next_candidate
next_candidate-IsCandidate s now u e =
    chosen (candidates s now s.jobs)
      (candidates-IsCandidate s now s.jobs (UniqueIds-Keyed s.jobs u)) e
  where
    chosen :
        (cs : List Candidate) {c : Candidate}
        → All (IsCandidate s now) cs
        → next_candidate cs ≡ some c
        → IsCandidate s now c
    chosen [] h e = cc
    chosen (d ∷ cs) {c} h e =
        subst (IsCandidate s now) (some-eq (first_of_order d cs) c e)
          (first_of_order-All (IsCandidate s now) d cs h.0 h.1)
