-- ===== src/Store/Calls/Kept.antt =====
-- What each operation of the cleanup and of the queue is made of.
use g7mediabooster.Base.{
  ℕ, ◌+◌, ◌≡◌, refl, ◌⊎◌, inl, inr, false, List, [], ◌∷◌, ok, Result-cases, Bytes, arith, ◌==◌,
  Option-cases,
}
use g7mediabooster.Domain.{UploadId}
use g7mediabooster.Domain.State.{can_transition_to}
use g7mediabooster.Ports.{OffsetDateTime, Duration, unix_timestamp, as_secs}
use g7mediabooster.Store.{UploadRow, Store}
use g7mediabooster.Store.Reservations.{update_uploads}
use g7mediabooster.Store.Confirmations.{upload_of}
use g7mediabooster.Store.Cleanup.{
  CleanupCandidate, DeletionRequestOutcome, requestable, requested, request_stored,
  request_deletion,
}
use g7mediabooster.Store.Cleanup.Leases.{
  cleanup_rows, cleanup_leased, lease_cleanup, claim_cleanup_batch, owned_cleanup, cleaned,
  complete_cleanup, cleanup_failed, fail_cleanup,
}
use g7mediabooster.Store.Moves.{IsAllowed, Updates, updated, followed}
use g7mediabooster.Store.Calls.Uploads.{moved, one_update}

-- A row that keeps its identity and its state.
stayed :
    {u v : UploadRow}
    → v.id ≡ u.id
    → v.tenant_id ≡ u.tenant_id
    → v.object_key ≡ u.object_key
    → v.expected_size_bytes ≡ u.expected_size_bytes
    → v.state ≡ u.state
    → IsAllowed u v
stayed id tenant key size same = record {
  id = id;
  tenant = tenant;
  key = key;
  size = size;
  state = inl same;
}

request_stored-eq-ok :
    (s s' : Store) (tenant_id : Bytes) (upload_id : UploadId) (now : ℕ) (u : UploadRow)
    (o : DeletionRequestOutcome)
    → request_stored s tenant_id upload_id now u ≡ ok (o, s')
    → (s' ≡ update_uploads (requestable tenant_id upload_id) (requested now) s) ⊎ (s' ≡ s)
request_stored-eq-ok s s' tenant_id upload_id now u o h = ground (arith, h)

pub request_deletion-Updates :
    (s s' : Store) (tenant_id : Bytes) (upload_id : UploadId) (now : OffsetDateTime)
    (o : DeletionRequestOutcome)
    → request_deletion s tenant_id upload_id now ≡ ok (o, s')
    → Updates s s'
unfolding request_deletion
request_deletion-Updates s s' tenant_id upload_id now o h =
    elim (Option-cases (upload_of s tenant_id upload_id)) [
      | inl missing ↦ ground (arith, h, missing)
      | inr (u, at) ↦
          one_update s s' (requestable tenant_id upload_id) (requested (unix_timestamp now))
            (λ v hit. stayed refl refl refl refl refl)
            (request_stored-eq-ok s s' tenant_id upload_id (unix_timestamp now) u o
              (ground (arith, h, at)))
    ]

lease_cleanup-Updates :
    (owner : Bytes) (until : ℕ) (us : List UploadRow) (s s' : Store) (cs : List CleanupCandidate)
    → lease_cleanup owner until us s ≡ ok (cs, s')
    → Updates s s'
unfolding lease_cleanup
lease_cleanup-Updates owner until [] s s' cs h =
    one_update s s' (λ u. false) (λ u. u) (λ u hit. cc) (inr (ground (arith, h)))
lease_cleanup-Updates owner until (u ∷ us) s s' cs h =
    elim (Result-cases (lease_cleanup owner until us (leased_one u))) [
      | inl ((rest, t), e) ↦
          followed
            (updated (λ (v : UploadRow). v.id == u.id) (cleanup_leased owner until)
              λ v hit. stayed refl refl refl refl refl)
            (lease_cleanup-Updates owner until us (leased_one u) s' rest (ground (arith, h, e)))
      | inr (_, e) ↦ ground (arith, h, e)
    ]
  where
    leased_one : UploadRow → Store
    leased_one u = update_uploads (λ (v : UploadRow). v.id == u.id) (cleanup_leased owner until) s

pub claim_cleanup_batch-Updates :
    (s s' : Store) (owner : Bytes) (now created_before rejected_before : OffsetDateTime)
    (lease_for : Duration) (limit max_attempts : ℕ) (cs : List CleanupCandidate)
    → claim_cleanup_batch s owner now created_before rejected_before lease_for limit max_attempts
      ≡ ok (cs, s')
    → Updates s s'
unfolding claim_cleanup_batch
claim_cleanup_batch-Updates s s' owner now created_before rejected_before lease_for limit
      max_attempts cs h =
    lease_cleanup-Updates owner (unix_timestamp now + as_secs lease_for)
      (cleanup_rows s max_attempts (unix_timestamp now) (unix_timestamp created_before)
        (unix_timestamp rejected_before) limit)
      s s' cs (ground (arith, h))

pub complete_cleanup-Updates :
    (s s' : Store) (upload_id : UploadId) (owner : Bytes) (now : OffsetDateTime)
    → complete_cleanup s upload_id owner now ≡ ok s'
    → Updates s s'
unfolding complete_cleanup can_transition_to
complete_cleanup-Updates s s' upload_id owner now h =
    one_update s s' (owned_cleanup upload_id owner) (cleaned (unix_timestamp now))
      (λ u hit. moved refl refl refl refl (ground arith)) (inl (ground (arith, h)))

pub fail_cleanup-Updates :
    (s s' : Store) (upload_id : UploadId) (owner : Bytes) (now retry_at : OffsetDateTime)
    (error_code : Bytes)
    → fail_cleanup s upload_id owner now retry_at error_code ≡ ok s'
    → Updates s s'
unfolding fail_cleanup
fail_cleanup-Updates s s' upload_id owner now retry_at error_code h =
    one_update s s' (owned_cleanup upload_id owner)
      (cleanup_failed (unix_timestamp now) (unix_timestamp retry_at) error_code)
      (λ u hit. stayed refl refl refl refl refl) (inl (ground (arith, h)))
