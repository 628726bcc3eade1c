-- ===== src/Domain/State.antt =====
-- crates/g7mb-domain/src/lib.rs: `UploadState::can_transition_to` and `transition_to`, with the
-- paths of the state machine.
use g7mediabooster.Base.{
  ℕ, suc, ◌+◌, ◌≤◌, ◌<◌, ◌≡◌, refl, inl, inr, Bool, true, false, List, [], ◌∷◌, Option, none, some,
  Result, ok, err, Bool-cases, if◌then◌else◌, arith,
}
use g7mediabooster.Domain.{
  UploadState, created, uploaded, quarantined, processing, ready, rejected, failed, deleted,
}

-- The arms of `matches!` in their order.
unfoldable pub can_transition_to : UploadState → UploadState → Bool
can_transition_to created uploaded = true
can_transition_to uploaded quarantined = true
can_transition_to quarantined processing = true
can_transition_to quarantined rejected = true
can_transition_to quarantined failed = true
can_transition_to processing ready = true
can_transition_to processing rejected = true
can_transition_to processing failed = true
can_transition_to deleted deleted = false
can_transition_to _ deleted = true
can_transition_to _ _ = false

pub record StateTransitionError : Type 0 where
  pub from : UploadState
  pub to : UploadState

-- `&mut self`: the state afterwards, with the result.
unfoldable pub transition_to :
    UploadState → UploadState → UploadState × Result StateTransitionError (Unit {0})
unfolding can_transition_to
transition_to self target =
    if can_transition_to self target
    then (target, ok tt)
    else (self, err (record { from = self; to = target }))

-- A path of permitted transitions, with its length.
pub data Lifecycle : ℕ → UploadState → UploadState → Type 0 where
  here : {s : UploadState} → Lifecycle 0 s s
  step :
      {n : ℕ} {s t u : UploadState}
      → can_transition_to s t ≡ true
      → Lifecycle n t u
      → Lifecycle (suc n) s u

-- How far a state is along the lifecycle.
abbrev pub rank : UploadState → ℕ
rank created = 0
rank uploaded = 1
rank quarantined = 2
rank processing = 3
rank ready = 4
rank rejected = 4
rank failed = 4
rank deleted = 5

can_transition_to-rank : (s t : UploadState) → can_transition_to s t ≡ true → rank s < rank t
unfolding can_transition_to
can_transition_to-rank s t h = ground arith

-- The state after a list of requested transitions, each of which may be refused.
unfoldable pub transition_all : UploadState → List UploadState → UploadState
unfolding transition_to
transition_all s [] = s
transition_all s (t ∷ ts) = transition_all (transition_to s t).0 ts

-- A path of n transitions climbs at least n ranks, so no lifecycle has a cycle, none has more than
-- five transitions, and none leaves `deleted`.
pub rank-Lifecycle : {n : ℕ} {s t : UploadState} → Lifecycle n s t → rank s + n ≤ rank t
rank-Lifecycle here = omega arith
rank-Lifecycle (step {s} {t} h p) = omega (arith, can_transition_to-rank s t h, rank-Lifecycle p)

-- How many transitions a state is before `ready`.
abbrev pub before_ready : UploadState → Option ℕ
before_ready created = some 4
before_ready uploaded = some 3
before_ready quarantined = some 2
before_ready processing = some 1
before_ready ready = some 0
before_ready _ = none

before_ready-step :
    (s t : UploadState) (n : ℕ)
    → can_transition_to s t ≡ true
    → before_ready t ≡ some n
    → before_ready s ≡ some (suc n)
unfolding can_transition_to
before_ready-step s t n h e = ground arith

-- A path of n transitions to `ready` starts at the state that stands n stages before it in the
-- order created, uploaded, quarantined, processing, ready: no stage is skipped, and a rejected,
-- failed or deleted upload never becomes ready.
pub ready-Lifecycle : {n : ℕ} {s : UploadState} → Lifecycle n s ready → before_ready s ≡ some n
ready-Lifecycle p = go p refl
  where
    go : {m : ℕ} {s t : UploadState} → Lifecycle m s t → t ≡ ready → before_ready s ≡ some m
    go (here {s = s}) e = rw e
    go (step {n = k} {s = a} {t = b} h p) e = before_ready-step a b k h (go p e)

-- Whatever transitions are requested, the state that results is reached by permitted ones, and a
-- request that is refused leaves the state as it was.
pub transition_all-Lifecycle :
    (s : UploadState) (ts : List UploadState) → (n : ℕ) × Lifecycle n s (transition_all s ts)
unfolding transition_all transition_to
transition_all-Lifecycle s [] = (0, here)
transition_all-Lifecycle s (t ∷ ts) = elim (Bool-cases (can_transition_to s t)) [
  | inl yes' ↦
      let (n, p) = transition_all-Lifecycle t ts in
      (suc n, rw (yes', transition_all, transition_to) (step yes' p))
  | inr no' ↦ rw (no', transition_all, transition_to) (transition_all-Lifecycle s ts)
]
