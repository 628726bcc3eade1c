-- ===== src/Store/Policies/Log.antt =====
-- The table of site policies is a log for each tenant: `publish_site_policy` appends the next
-- revision, recognises a replay, and refuses all else.
use g7mediabooster.Base.{
  ℕ, ◌+◌, ◌≤◌, ◌≡◌, refl, sym, ap, ◌∙◌, subst, Bool, true, false, List, [], ◌∷◌, ◌++◌, Option, none,
  some, Result, ok, err, Bytes, length, ◌==◌, eq_bytes, eq_bytes_iff, if◌then◌else◌, find_where,
  select_where, Bool-cases, Option-cases, ◌⊎◌, inl, inr, arith, i64_max,
}
use mathlib.Core.List.{append-nil}
use g7mediabooster.Policies.{
  SitePolicySnapshot, PublishPolicyOutcome, published, unchanged, SitePolicyRepositoryError,
  revision_conflict, backend,
}
use g7mediabooster.Store.{PolicyRow, Store}
use g7mediabooster.Store.Confirmations.{later, latest_revision}
use g7mediabooster.Store.Policies.{
  is_admissible, policy_row, next_revision, after_latest, is_revision, byte_len_of,
  publish_site_policy,
}

-- The rows of a tenant, in the order of publication.
abbrev pub rows : Bytes → List PolicyRow → List PolicyRow
rows tenant_id = select_where (λ (p : PolicyRow). eq_bytes p.tenant_id tenant_id)

abbrev pub history : Bytes → Store → List PolicyRow
history tenant_id s = rows tenant_id s.policies

-- The revisions are numbered from k on.
abbrev pub IsNumbered : ℕ → List PolicyRow → Type 0
IsNumbered k [] = Unit
IsNumbered k (p ∷ ps) = (p.revision ≡ k) × IsNumbered (k + 1) ps

-- Every tenant's revisions are 1, 2, 3, ….
abbrev pub IsSequential : Store → Type 0
IsSequential s = (tenant_id : Bytes) → IsNumbered 1 (history tenant_id s)

-- The entry with number n of a log that is numbered from k on.
abbrev pub entry_from : ℕ → ℕ → List PolicyRow → Option PolicyRow
entry_from k n [] = none
entry_from k n (p ∷ ps) = if n == k then some p else entry_from (k + 1) n ps

latest_from : ℕ → List PolicyRow → Option ℕ
latest_from k [] = none
latest_from k (p ∷ ps) = some (k + length ps)

later-latest_from :
    (k : ℕ) (ps : List PolicyRow) → some (later k (latest_from (k + 1) ps)) ≡ some (k + length ps)
unfolding latest_from
later-latest_from k [] = ap some (omega arith)
later-latest_from k (p ∷ ps) = ap some (omega arith)

-- The head of a list that a test kept.
kept_head :
    (b : Bool) (k : ℕ) (p : PolicyRow) (ps : List PolicyRow)
    → b ≡ true
    → IsNumbered k (if b then p ∷ ps else ps)
    → (p.revision ≡ k) × IsNumbered (k + 1) ps
kept_head true k p ps e h = h
kept_head false k p ps e h = cc

dropped_head :
    (b : Bool) (k : ℕ) (p : PolicyRow) (ps : List PolicyRow)
    → b ≡ false
    → IsNumbered k (if b then p ∷ ps else ps)
    → IsNumbered k ps
dropped_head true k p ps e h = cc
dropped_head false k p ps e h = h

module _ (tenant_id : Bytes) where
  latest_revision-rows :
      (k : ℕ) (policies : List PolicyRow)
      → IsNumbered k (rows tenant_id policies)
      → latest_revision tenant_id policies ≡ latest_from k (rows tenant_id policies)
  unfolding latest_revision select_where latest_from
  latest_revision-rows k [] h = refl
  latest_revision-rows k (p ∷ ps) h = elim (Bool-cases (eq_bytes p.tenant_id tenant_id)) [
    | inl own ↦
        let (first, rest) =
          kept_head (eq_bytes p.tenant_id tenant_id) k p (rows tenant_id ps) own h in
        let later_rows = latest_revision-rows (k + 1) ps rest in
        rw own (rw later_rows (rw first (later-latest_from k (rows tenant_id ps))))
    | inr other ↦
        let rest = dropped_head (eq_bytes p.tenant_id tenant_id) k p (rows tenant_id ps) other h in
        rw other (latest_revision-rows k ps rest)
  ]

  find_where-rows :
      (k n : ℕ) (policies : List PolicyRow)
      → IsNumbered k (rows tenant_id policies)
      → find_where (is_revision tenant_id n) policies ≡ entry_from k n (rows tenant_id policies)
  unfolding find_where select_where
  find_where-rows k n [] h = refl
  find_where-rows k n (p ∷ ps) h = elim (Bool-cases (eq_bytes p.tenant_id tenant_id)) [
    | inl own ↦
        let (first, rest) =
          kept_head (eq_bytes p.tenant_id tenant_id) k p (rows tenant_id ps) own h in
        ground (arith, own, first, find_where-rows (k + 1) n ps rest)
    | inr other ↦
        let rest = dropped_head (eq_bytes p.tenant_id tenant_id) k p (rows tenant_id ps) other h in
        ground (arith, other, find_where-rows k n ps rest)
  ]

  rows-append :
      (policies : List PolicyRow) (p : PolicyRow)
      → rows tenant_id (policies ++ p ∷ [])
        ≡ rows tenant_id policies ++ (if eq_bytes p.tenant_id tenant_id then p ∷ [] else [])
  unfolding select_where
  rows-append [] p = refl
  rows-append (q ∷ qs) p = ground (arith, rows-append qs p)

IsNumbered-append :
    (k : ℕ) (ps : List PolicyRow) (p : PolicyRow)
    → IsNumbered k ps
    → p.revision ≡ k + length ps
    → IsNumbered k (ps ++ p ∷ [])
IsNumbered-append k [] p h e = (omega (arith, e), tt)
IsNumbered-append k (q ∷ qs) p h e = (h.0, IsNumbered-append (k + 1) qs p h.1 (omega (arith, e)))

after_latest-latest_from : (ps : List PolicyRow) → after_latest (latest_from 1 ps) ≡ length ps + 1
unfolding latest_from
after_latest-latest_from [] = omega arith
after_latest-latest_from (p ∷ ps) = omega arith

next_revision-history :
    (tenant_id : Bytes) (s : Store)
    → IsNumbered 1 (history tenant_id s)
    → next_revision tenant_id s.policies ≡ length (history tenant_id s) + 1
unfolding next_revision
next_revision-history tenant_id s h =
    ap after_latest (latest_revision-rows tenant_id 1 s.policies h)
    ∙ after_latest-latest_from (history tenant_id s)

-- A revision that is not the next one: a replay has the settings of the entry with its number.
abbrev pub replay :
    List PolicyRow
    → PolicyRow
    → Option PolicyRow
    → Result SitePolicyRepositoryError (PublishPolicyOutcome × List PolicyRow)
replay log p none = err revision_conflict
replay log p (some old) =
    if eq_bytes old.settings_sha256 p.settings_sha256
    then ok (unchanged, log)
    else err revision_conflict

-- The log of a tenant as its publications see it.
abbrev pub append_log :
    Bool
    → PolicyRow
    → List PolicyRow
    → Result SitePolicyRepositoryError (PublishPolicyOutcome × List PolicyRow)
append_log admissible p log =
    if p.revision == length log + 1
    then (if admissible then ok (published, log ++ p ∷ []) else err (backend "constraint failed"))
    else replay log p (entry_from 1 p.revision log)

-- A result on the store, as a result on the log of a tenant.
abbrev pub seen_by :
    Bytes
    → Result SitePolicyRepositoryError (PublishPolicyOutcome × Store)
    → Result SitePolicyRepositoryError (PublishPolicyOutcome × List PolicyRow)
seen_by tenant_id (ok (outcome, s)) = ok (outcome, history tenant_id s)
seen_by tenant_id (err e) = err e

module _ (s : Store) (snapshot : SitePolicySnapshot) (created_at : ℕ) where
  abbrev row : PolicyRow
  row = policy_row snapshot created_at

  appended :
      (tenant_id : Bytes)
      → history tenant_id (record s { policies = s.policies ++ row ∷ [] })
        ≡ history tenant_id s ++ (if eq_bytes snapshot.tenant_id tenant_id then row ∷ [] else [])
  appended tenant_id = rows-append tenant_id s.policies row

  publish_site_policy-append_log :
      IsSequential s
      → snapshot.revision ≤ i64_max
      → byte_len_of snapshot.watermark ≤ i64_max
      → seen_by snapshot.tenant_id (publish_site_policy s snapshot created_at)
        ≡ append_log (is_admissible s.uploads row) row (history snapshot.tenant_id s)
  unfolding publish_site_policy
  publish_site_policy-append_log h small short =
      let next = next_revision-history snapshot.tenant_id s (h snapshot.tenant_id) in
      let found =
        find_where-rows snapshot.tenant_id 1 snapshot.revision s.policies (h snapshot.tenant_id) in
      ground (
        arith,
        next,
        found,
        appended snapshot.tenant_id,
        (eq_bytes_iff snapshot.tenant_id snapshot.tenant_id).1 refl,
      )

  -- A publication that succeeds adds the row of the next revision, or changes nothing.
  published_store :
      (o : PublishPolicyOutcome) (t : Store)
      → publish_site_policy s snapshot created_at ≡ ok (o, t)
      → ((t ≡ record s { policies = s.policies ++ row ∷ [] })
          × (snapshot.revision ≡ next_revision snapshot.tenant_id s.policies))
        ⊎ (t ≡ s)
  unfolding publish_site_policy
  published_store o t e =
      elim (Bool-cases (snapshot.revision == next_revision snapshot.tenant_id s.policies)) [
        | inl next ↦ inl (ground (arith, e, next), ground (arith, next))
        | inr other ↦
            elim (Option-cases
              (find_where (is_revision snapshot.tenant_id snapshot.revision) s.policies)) [
                | inl missing ↦ inr (ground (arith, e, other, missing))
                | inr (p, there) ↦ inr (ground (arith, e, other, there))
              ]
      ]

  other_history :
      (tenant_id : Bytes)
      → eq_bytes snapshot.tenant_id tenant_id ≡ false
      → history tenant_id (record s { policies = s.policies ++ row ∷ [] }) ≡ history tenant_id s
  other_history tenant_id other = appended tenant_id ∙ rw other (append-nil (history tenant_id s))

  -- The numbering goes on.
  published-IsSequential :
      IsSequential s
      → snapshot.revision ≡ next_revision snapshot.tenant_id s.policies
      → IsSequential (record s { policies = s.policies ++ row ∷ [] })
  published-IsSequential h next tenant_id =
      elim (Bool-cases (eq_bytes snapshot.tenant_id tenant_id)) [
        | inl own ↦
            let same : snapshot.tenant_id ≡ tenant_id =
              (eq_bytes_iff snapshot.tenant_id tenant_id).0 own in
            let number : snapshot.revision ≡ length (history tenant_id s) + 1 =
              next
              ∙ next_revision-history snapshot.tenant_id s (h snapshot.tenant_id)
              ∙ ap (λ t. length (history t s) + 1) same in
            let rest : history tenant_id s
                  ++ (if eq_bytes snapshot.tenant_id tenant_id then row ∷ [] else [])
                ≡ history tenant_id s ++ row ∷ [] =
              rw own in
            subst (IsNumbered 1) (sym (appended tenant_id ∙ rest))
              (IsNumbered-append 1 (history tenant_id s) row (h tenant_id) (omega (arith, number)))
        | inr other ↦ subst (IsNumbered 1) (sym (other_history tenant_id other)) (h tenant_id)
      ]

  -- What a publication that succeeds leaves behind.
  abbrev pub IsExtended : Store → Type 0
  IsExtended t =
      IsSequential t
      × ((tenant_id : Bytes)
          → eq_bytes snapshot.tenant_id tenant_id ≡ false
          → history tenant_id t ≡ history tenant_id s)

  extended :
      IsSequential s
      → (o : PublishPolicyOutcome) (t : Store)
      → publish_site_policy s snapshot created_at ≡ ok (o, t)
      → IsExtended t
  extended h o t e = elim (published_store o t e) [
    | inl (made, next) ↦
        subst IsExtended (sym made)
          ((published-IsSequential h next, λ tenant_id other. other_history tenant_id other))
    | inr same ↦ subst IsExtended (sym same) ((h, λ tenant_id other. refl))
  ]

  -- With every tenant's revisions numbered from 1 on, a publication acts on the tenant's history as
  -- on a log: the next number appends the row if the table accepts it, a number in the log is a
  -- replay if its settings have the same digest, and all else is a conflict. After a success the
  -- numbering holds again and the histories of the other tenants are the same. The revision and the
  -- length of the asset are within i64.
  pub publish_site_policy-refines-append_log :
      IsSequential s
      → snapshot.revision ≤ i64_max
      → byte_len_of snapshot.watermark ≤ i64_max
      → (seen_by snapshot.tenant_id (publish_site_policy s snapshot created_at)
          ≡ append_log (is_admissible s.uploads row) row (history snapshot.tenant_id s))
        × ((o : PublishPolicyOutcome) (t : Store)
            → publish_site_policy s snapshot created_at ≡ ok (o, t)
            → IsExtended t)
  publish_site_policy-refines-append_log h small short =
      (publish_site_policy-append_log h small short, extended h)
