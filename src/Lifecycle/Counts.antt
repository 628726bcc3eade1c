-- ===== src/Lifecycle/Counts.antt =====
-- What the summary of a cleanup run counts.
use g7mediabooster.Base.{
  ℕ, ◌+◌, ◌-◌, ◌≤◌, ◌≡◌, refl, sym, ap, ◌∙◌, subst, inl, inr, Bool, true, false, List, [], ◌∷◌,
  Result, ok, err, Bytes, length, arith,
}
use g7mediabooster.Ports.Effects.{lift, convert, fail}
use g7mediabooster.Ports.Chains.{after-ok, branches}
use g7mediabooster.Store.Cleanup.{CleanupCandidate}
use g7mediabooster.Lifecycle.{
  LifecycleService, LifecycleRunSummary, LifecycleRunError, invalid_owner, try_duration,
  valid_identifier, one_completed, one_failed, summary_of, cleanup_storage, give_up, settle,
  clean_one, clean_all, claim_batch, purge, run_claimed, run_once,
}

-- One candidate more is completed or failed.
abbrev Counted : LifecycleRunSummary → LifecycleRunSummary → ℕ → Type 0
Counted s t n =
    (t.claimed ≡ s.claimed)
    × (t.completed + t.failed ≡ s.completed + s.failed + n)
    × (s.dead_lettered ≤ s.failed → t.dead_lettered ≤ t.failed)

one_failed-Counted : (b : Bool) (s : LifecycleRunSummary) → Counted s (one_failed b s) 1
one_failed-Counted true s = (refl, omega arith, λ h. omega arith)
one_failed-Counted false s = (refl, omega arith, λ h. omega arith)

-- What a result that succeeds holds, in a step that ends with it.
ended : {W E A : Type 0} {r : Result E A × W} {a b : A} {w : W} → r ≡ (ok a, w) → r.0 ≡ ok b → a ≡ b
ended e h = cc

module _ {W : Type 0} (service : LifecycleService W) where
  open service use {now_utc}

  settle-Counted :
      (owner : Bytes) (c : CleanupCandidate) (s t : LifecycleRunSummary)
      (r : Result Bytes (Unit {0})) (w : W)
      → (settle service owner c s r w).0 ≡ ok t
      → Counted s t 1
  unfolding settle give_up
  settle-Counted owner c s t (ok u) w h =
      let (a, made, onward) =
        after-ok
          (convert LifecycleRunError.repository
            (service.repository.complete_cleanup c.upload_id owner (now_utc w) w))
          _ h in
      let same : one_completed s ≡ t = ended onward h in
      subst (λ x. Counted s x 1) same (refl, omega arith, λ k. k)
  settle-Counted owner c s t (err code) w h =
      let (delay, valid, onward) =
        after-ok (lift (try_duration service.policy.retry_delay) w) _ h in
      let (a, made, last) =
        after-ok
          (convert LifecycleRunError.repository (
            service.repository.fail_cleanup c.upload_id owner (now_utc w) (now_utc w + delay) code
              w))
          _ (ap (λ p. p.0) (sym onward) ∙ h) in
      let same = ended (onward ∙ last) h in subst (λ x. Counted s x 1) same (one_failed-Counted _ s)

  clean_all-Counted :
      (owner : Bytes) (cs : List CleanupCandidate) (s t : LifecycleRunSummary) (w : W)
      → (clean_all service owner cs s w).0 ≡ ok t
      → Counted s t (length cs)
  unfolding clean_all clean_one
  clean_all-Counted owner [] s t w h =
      let same : s ≡ t = cc in subst (λ x. Counted s x 0) same (refl, omega arith, λ k. k)
  clean_all-Counted owner (c ∷ cs) s t w h =
      let storage = cleanup_storage service c w in
      let (next, settled, onward) = after-ok (settle service owner c s storage.0 storage.1) _ h in
      let (c1, n1, d1) =
        settle-Counted owner c s next storage.0 storage.1 (ap (λ p. p.0) settled) in
      let (c2, n2, d2) = clean_all-Counted owner cs next t _ (ap (λ p. p.0) (sym onward) ∙ h) in
      (c2 ∙ c1, omega (arith, n1, n2), λ k. d2 (d1 k))

  purge-same :
      (s t : LifecycleRunSummary) (w : W)
      → (purge service s w).0 ≡ ok t
      → (n : ℕ) × (record s { tombstones_purged = n } ≡ t)
  unfolding purge
  purge-same s t w h =
      let (retention, valid, onward) =
        after-ok (lift (try_duration service.policy.tombstone_retention) w) _ h in
      let (n, purged, last) =
        after-ok
          (convert LifecycleRunError.repository (
            service.repository.purge_tombstones (now_utc w - retention)
              service.policy.tombstone_purge_batch_size w))
          _ (ap (λ p. p.0) (sym onward) ∙ h) in
      (n, ended (onward ∙ last) h)

  -- The candidates of a batch, all of them settled.
  abbrev pub AreSettled : Bytes → W → LifecycleRunSummary → Type 0
  AreSettled owner w summary =
      (candidates : List CleanupCandidate) × ((claim_batch service owner w).0 ≡ ok candidates)
      × (summary.claimed ≡ length candidates)
      × (summary.completed + summary.failed ≡ length candidates)
      × (summary.dead_lettered ≤ summary.failed)

  run_claimed-counts :
      (owner : Bytes) (w : W) (summary : LifecycleRunSummary)
      → (run_claimed service owner w).0 ≡ ok summary
      → AreSettled owner w summary
  unfolding run_claimed
  run_claimed-counts owner w summary h =
      let (cs, claimed, onward) = after-ok (claim_batch service owner w) _ h in
      let v = (claim_batch service owner w).1 in
      let (settled, cleaned, last) =
        after-ok (clean_all service owner cs (summary_of service cs) v) _
          (ap (λ p. p.0) (sym onward) ∙ h) in
      let (n, same) = purge-same settled summary _ (ap (λ p. p.0) (sym (onward ∙ last)) ∙ h) in
      let (c, k, d) =
        clean_all-Counted owner cs (summary_of service cs) settled v (ap (λ p. p.0) cleaned) in
      subst (AreSettled owner w) same
        (cs, ap (λ p. p.0) claimed, c, omega (arith, k), d (omega arith))

  -- A cleanup run that succeeds had a valid owner, and settled every candidate that it claimed:
  -- each is counted as completed or as failed, and the dead letters are among the failed.
  pub run_once-counts :
      (owner : Bytes) (w : W) (summary : LifecycleRunSummary)
      → (run_once service owner w).0 ≡ ok summary
      → (valid_identifier owner 128 ≡ true) × AreSettled owner w summary
  unfolding run_once
  run_once-counts owner w summary h =
      elim (branches (valid_identifier owner 128) (run_claimed service owner) (fail invalid_owner)
        w) [
          | inl (valid, e) ↦ (valid, run_claimed-counts owner w summary (ap (λ p. p.0) (sym e) ∙ h))
          | inr (invalid, e) ↦ absurd (refused (ap (λ p. p.0) (sym e) ∙ h))
        ]
    where
      refused :
          ◌≡◌ {A = Result LifecycleRunError LifecycleRunSummary} (err invalid_owner) (ok summary)
          → ⊥
      refused x = cc
