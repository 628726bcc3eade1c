-- ===== src/Store/Queue/Turns.antt =====
-- Tenants take turns: a claim serves the waiting tenant whose last claim is the oldest.
use g7mediabooster.Base.{
  ℕ, ◌≤◌, ◌<◌, ◌≡◌, refl, sym, ap, ◌∙◌, subst, ◌≢◌, ◌⊎◌, inl, inr, true, false, List, [], ◌∷◌,
  Option, none, some, Result, ok, err, Bytes, All, All-append, any, arith, eq_bytes, eq_bytes_eq,
  eq_bytes_refl, Bool-cases, ◌>>◌,
}
use g7mediabooster.Ports.{OffsetDateTime, Duration, unix_timestamp}
use g7mediabooster.Store.{UploadRow, JobRow, Store}
use g7mediabooster.Store.Queue.{
  JobQueueError, Candidate, set_claim_sequence, candidate_of, candidates, is_eligible, precedes,
  first_of_order, next_candidate, validate_worker_id, lease_end,
}
use g7mediabooster.Store.Queue.Steps.{Call, claims, apply, apply_all}
use g7mediabooster.Store.Queue.Claims.{first_of_order-All}
use g7mediabooster.Store.Queue.Fairness.{
  sequence_of, IsBounded, tenant_of_choice, served_from, served, IsUnserved, is_waiting,
  sequence-set_same, sequence-set_other, apply-Sequences,
}

precedes-sequence : (d c : Candidate) → precedes d c ≡ true → d.sequence ≤ c.sequence
unfolding precedes
precedes-sequence d c h = ground arith

follows-sequence : (d c : Candidate) → precedes d c ≡ false → c.sequence ≤ d.sequence
unfolding precedes
follows-sequence d c h = ground arith

-- No candidate of a list is ahead of another candidate.
abbrev IsLeast : Candidate → List Candidate → Type 0
IsLeast best cs = All (λ (d : Candidate). best.sequence ≤ d.sequence) cs

first_of_order-IsLeast :
    (c : Candidate) (cs : List Candidate) → IsLeast (first_of_order c cs) (c ∷ cs)
unfolding first_of_order
first_of_order-IsLeast c [] = (omega arith, tt)
first_of_order-IsLeast c (d ∷ cs) = elim (Bool-cases (precedes d c)) [
  | inl earlier ↦
      let (least, rest) = first_of_order-IsLeast d cs in
      subst (λ best. IsLeast best (c ∷ d ∷ cs))
        (ap (λ best. first_of_order best cs) (rw earlier refl))
        (omega (arith, least, precedes-sequence d c earlier), (least, rest))
  | inr later ↦
      let (least, rest) = first_of_order-IsLeast c cs in
      subst (λ best. IsLeast best (c ∷ d ∷ cs))
        (ap (λ best. first_of_order best cs) (rw later refl))
        (least, (omega (arith, least, follows-sequence d c later), rest))
]

some-bytes : (x y : Bytes) → some x ≡ some y → x ≡ y
some-bytes x y e = cc

-- A candidate's sequence is its tenant's.
abbrev IsSequenced : Store → Candidate → Type 0
IsSequenced s c = c.sequence ≡ sequence_of c.tenant_id s

candidate_of-IsSequenced :
    (s : Store) (j : JobRow) (u : Option UploadRow) → All (IsSequenced s) (candidate_of s j u)
unfolding candidate_of
candidate_of-IsSequenced s j none = tt
candidate_of-IsSequenced s j (some u) = (refl, tt)

candidates-IsSequenced :
    (s : Store) (now : ℕ) (js : List JobRow) → All (IsSequenced s) (candidates s now js)
unfolding candidates
candidates-IsSequenced s now [] = tt
candidates-IsSequenced s now (j ∷ js) = elim (Bool-cases (is_eligible now j)) [
  | inl eligible ↦ rw eligible (
      All-append (IsSequenced s) (candidate_of s j _) (candidates s now js)
        (candidate_of-IsSequenced s j _) (candidates-IsSequenced s now js))
  | inr other ↦ rw other (candidates-IsSequenced s now js)
]

-- The sequence of a tenant after a call that serves somebody.
sequence_of-served :
    (s s' : Store) (t tenant : Bytes)
    → s'.tenant_queue_state ≡ set_claim_sequence t s.next_claim_sequence s.tenant_queue_state
    → ((t ≡ tenant) × (sequence_of tenant s' ≡ s.next_claim_sequence))
      ⊎ ((t ≢ tenant) × (sequence_of tenant s' ≡ sequence_of tenant s))
sequence_of-served s s' t tenant set = elim (Bool-cases (eq_bytes t tenant)) [
  | inl same ↦ inl (
    eq_bytes_eq t tenant same,
    rw (set, eq_bytes_eq t tenant same) (sequence-set_same tenant _ s.tenant_queue_state),
  )
  | inr other ↦ inr (
    (λ e. cc (ap (eq_bytes t) e, eq_bytes_refl t, other)),
    rw set (sequence-set_other t tenant _ s.tenant_queue_state other),
  )
]

-- Every call keeps the sequences bounded by the next one.
pub apply-IsBounded : (s : Store) (c : Call) → IsBounded s → IsBounded (apply s c)
apply-IsBounded s c b tenant = elim (apply-Sequences s c) [
  | inl (_, kept) ↦ rw (kept.0, kept.1) (b tenant)
  | inr (t, _, set, next) ↦ elim (sequence_of-served s (apply s c) t tenant set) [
    | inl (_, renewed) ↦ omega (arith, renewed, next)
    | inr (_, same) ↦ omega (arith, same, next, b tenant)
  ]
]

-- A call that does not serve a tenant keeps it behind a tenant that is further on.
unserved-behind :
    (s : Store) (c : Call) (a b : Bytes)
    → IsBounded s
    → served s c ≢ some b
    → sequence_of b s < sequence_of a s
    → sequence_of b (apply s c) < sequence_of a (apply s c)
unserved-behind s c a b bounded unserved behind = elim (apply-Sequences s c) [
  | inl (_, kept) ↦ rw kept.0 behind
  | inr (t, serves, set, next) ↦ elim (sequence_of-served s (apply s c) t b set) [
    | inl (hit, _) ↦ absurd (unserved (serves ∙ ap some hit))
    | inr (_, kept_b) ↦ elim (sequence_of-served s (apply s c) t a set) [
      | inl (_, renewed) ↦ omega (arith, kept_b, renewed, bounded b)
      | inr (_, kept_a) ↦ omega (arith, kept_b, kept_a, behind)
    ]
  ]
]

unserved_all-behind :
    (s : Store) (cs : List Call) (a b : Bytes)
    → IsBounded s
    → IsUnserved b s cs
    → sequence_of b s < sequence_of a s
    → sequence_of b (apply_all s cs) < sequence_of a (apply_all s cs)
unfolding apply_all
unserved_all-behind s [] a b bounded unserved behind = behind
unserved_all-behind s (c ∷ cs) a b bounded unserved behind =
    unserved_all-behind (apply s c) cs a b (apply-IsBounded s c bounded) unserved.1
      (unserved-behind s c a b bounded unserved.0 behind)

least-waiting :
    (s : Store) (n : ℕ) (b : Bytes) (cs : List Candidate)
    → All (IsSequenced s) cs
    → All (λ (c : Candidate). n ≤ c.sequence) cs
    → any (λ (c : Candidate). eq_bytes c.tenant_id b) cs ≡ true
    → n ≤ sequence_of b s
least-waiting s n b [] h k w = cc
least-waiting s n b (c ∷ cs) h k w = elim (Bool-cases (eq_bytes c.tenant_id b)) [
  | inl same ↦
      let at : c.sequence ≡ sequence_of b s =
        h.0 ∙ ap (λ t. sequence_of t s) (eq_bytes_eq c.tenant_id b same) in
      omega (arith, k.0, at)
  | inr other ↦ least-waiting s n b cs h.1 k.1 (ground (arith, w, other))
]

-- The chosen candidate is not ahead of a waiting tenant.
chosen-least :
    (s : Store) (cs : List Candidate) (b : Bytes)
    → All (IsSequenced s) cs
    → any (λ (c : Candidate). eq_bytes c.tenant_id b) cs ≡ true
    → (d : Candidate) × (next_candidate cs ≡ some d) × (sequence_of d.tenant_id s ≤ sequence_of b s)
unfolding next_candidate
chosen-least s [] b h w = cc
chosen-least s (c ∷ cs) b h w =
    let least = first_of_order-IsLeast c cs in
    let at = first_of_order-All (IsSequenced s) c cs h.0 h.1 in
    (
      first_of_order c cs,
      refl,
      subst (λ n. n ≤ sequence_of b s) at (least-waiting s _ b (c ∷ cs) h least w),
    )

-- With claim sequences that are all older than the next one, after a call that leases a job of one
-- tenant, and calls that lease no job of another one, a claim does not lease a job of the first
-- tenant while the other one has a job that can be claimed: no tenant is served twice before a
-- waiting tenant is served once.
pub tenants_take_turns :
    (s : Store) (first : Call) (cs : List Call) (worker_id : Bytes) (now : OffsetDateTime)
    (lease_for : Duration) (a b : Bytes)
    → IsBounded s
    → a ≢ b
    → served s first ≡ some a
    → IsUnserved b (apply s first) cs
    → is_waiting b (apply_all (apply s first) cs) (unix_timestamp now) ≡ true
    → served (apply_all (apply s first) cs) (claims worker_id now lease_for) ≢ some a
unfolding served
tenants_take_turns s first cs worker_id now lease_for a b bounded differ serves unserved waiting =
    checked (validate_worker_id worker_id >> lease_end now lease_for)
  where
    t : ℕ
    t = unix_timestamp now

    last : Store
    last = apply_all (apply s first) cs

    start_behind : sequence_of b (apply s first) < sequence_of a (apply s first)
    start_behind = elim (apply-Sequences s first) [
      | inl (idle, _) ↦ cc
      | inr (c, serves_c, set, next) ↦
          let is_a : c ≡ a = some-bytes c a (sym serves_c ∙ serves) in
          elim (sequence_of-served s (apply s first) c b set) [
            | inl (hit, _) ↦ absurd (differ (sym is_a ∙ hit))
            | inr (_, kept_b) ↦ elim (sequence_of-served s (apply s first) c a set) [
              | inl (_, renewed) ↦ omega (arith, kept_b, renewed, bounded b)
              | inr (miss, _) ↦ absurd (miss is_a)
            ]
          ]
    ]

    behind : sequence_of b last < sequence_of a last
    behind =
        unserved_all-behind (apply s first) cs a b (apply-IsBounded s first bounded) unserved
          start_behind

    checked : (r : Result JobQueueError ℕ) → served_from last t r ≢ some a
    checked (err e) h = cc
    checked (ok until) h =
        let (d, chosen, least) =
          chosen-least last (candidates last t last.jobs) b
            (candidates-IsSequenced last t last.jobs) waiting in
        let is_a : d.tenant_id ≡ a =
          some-bytes d.tenant_id a (sym (ap tenant_of_choice chosen) ∙ h) in
        omega (arith, behind, least, ap (λ tenant. sequence_of tenant last) is_a)
