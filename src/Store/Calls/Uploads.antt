-- ===== src/Store/Calls/Uploads.antt =====
-- What each operation on the uploads is made of.
use g7mediabooster.Base.{
  ℕ, ◌≡◌, refl, sym, subst, ◌⊎◌, inl, inr, Bool, true, List, ok, Result-cases, Bytes, arith,
  Option-cases,
}
use g7mediabooster.Domain.{
  UploadId, UploadState, created, uploaded, quarantined, processing, eq_state,
}
use g7mediabooster.Domain.State.{can_transition_to}
use g7mediabooster.Ports.{OffsetDateTime, unix_timestamp}
use g7mediabooster.Store.{UploadRow, DerivativeRow, Store}
use g7mediabooster.Store.Reservations.{update_uploads}
use g7mediabooster.Store.Confirmations.{
  in_state, to_uploaded, to_quarantined, to_deleted, insert_job, mark_quarantined_and_enqueue,
  mark_deleted,
}
use g7mediabooster.Store.Processing.{
  PublishedDerivative, at_state, started, published, is_rejectable, rejected_with, start_processing,
  enter_ready, insert_derivatives, upload_at, publish_derivatives, mark_rejected,
}
use g7mediabooster.Store.Moves.{IsAllowed, IsSameUsage, Updates, kept, updated, followed}

-- A row that keeps its identity and makes a permitted transition.
pub moved :
    {u v : UploadRow}
    → v.id ≡ u.id
    → v.tenant_id ≡ u.tenant_id
    → v.object_key ≡ u.object_key
    → v.expected_size_bytes ≡ u.expected_size_bytes
    → can_transition_to u.state v.state ≡ true
    → IsAllowed u v
moved id tenant key size move = record {
  id = id;
  tenant = tenant;
  key = key;
  size = size;
  state = inr move;
}

pub same_usage : (s : Store) → IsSameUsage s s
same_usage s = record { uploads = refl; global = refl; by_tenant = refl }

abbrev confirmed : Store → Bytes → UploadId → ℕ → ℕ → Store
confirmed s tenant_id upload_id size now =
    update_uploads (in_state uploaded tenant_id upload_id) (to_quarantined now)
      (update_uploads (in_state created tenant_id upload_id) (to_uploaded size now) s)

confirmed-Updates :
    (s : Store) (tenant_id : Bytes) (upload_id : UploadId) (size now : ℕ)
    → Updates s (confirmed s tenant_id upload_id size now)
unfolding can_transition_to
confirmed-Updates s tenant_id upload_id size now =
    followed
      (updated (in_state created tenant_id upload_id) (to_uploaded size now)
        λ u hit. moved refl refl refl refl (ground arith))
      (updated (in_state uploaded tenant_id upload_id) (to_quarantined now)
        λ u hit. moved refl refl refl refl (ground arith))

mark_quarantined-eq-ok :
    (s s' : Store) (tenant_id : Bytes) (upload_id : UploadId) (size : ℕ) (preset_id : Bytes)
    (now : OffsetDateTime) (job_id : ℕ)
    → mark_quarantined_and_enqueue s tenant_id upload_id size preset_id now job_id ≡ ok s'
    → IsSameUsage (confirmed s tenant_id upload_id size (unix_timestamp now)) s'
unfolding mark_quarantined_and_enqueue insert_job
mark_quarantined-eq-ok s s' tenant_id upload_id size preset_id now job_id h = record {
  uploads = ground arith;
  global = ground arith;
  by_tenant = ground arith;
}

pub mark_quarantined-Updates :
    (s s' : Store) (tenant_id : Bytes) (upload_id : UploadId) (size : ℕ) (preset_id : Bytes)
    (now : OffsetDateTime) (job_id : ℕ)
    → mark_quarantined_and_enqueue s tenant_id upload_id size preset_id now job_id ≡ ok s'
    → Updates s s'
mark_quarantined-Updates s s' tenant_id upload_id size preset_id now job_id h =
    followed (confirmed-Updates s tenant_id upload_id size (unix_timestamp now))
      (kept (mark_quarantined-eq-ok s s' tenant_id upload_id size preset_id now job_id h))

-- An operation that makes one update, or finds it made.
pub one_update :
    (s s' : Store) (p : UploadRow → Bool) (f : UploadRow → UploadRow)
    → ((u : UploadRow) → p u ≡ true → IsAllowed u (f u))
    → (s' ≡ update_uploads p f s) ⊎ (s' ≡ s)
    → Updates s s'
one_update s s' p f allowed (inl e) = subst (Updates s) (sym e) (updated p f allowed)
one_update s s' p f allowed (inr e) = subst (Updates s) (sym e) (kept (same_usage s))

pub mark_deleted-Updates :
    (s s' : Store) (tenant_id : Bytes) (upload_id : UploadId) (now : OffsetDateTime)
    → mark_deleted s tenant_id upload_id now ≡ ok s'
    → Updates s s'
unfolding mark_deleted can_transition_to
mark_deleted-Updates s s' tenant_id upload_id now h =
    one_update s s' (in_state created tenant_id upload_id) (to_deleted (unix_timestamp now))
      (λ u hit. moved refl refl refl refl (ground arith)) (ground (arith, h))

pub start_processing-Updates :
    (s s' : Store) (upload_id : UploadId) (detected_content_type source_sha256 : Bytes)
    (now : OffsetDateTime)
    → start_processing s upload_id detected_content_type source_sha256 now ≡ ok s'
    → Updates s s'
unfolding start_processing can_transition_to
start_processing-Updates s s' upload_id detected_content_type source_sha256 now h =
    one_update s s' (at_state (eq_state quarantined) upload_id)
      (started detected_content_type source_sha256 (unix_timestamp now))
      (λ u hit. moved refl refl refl refl (ground arith)) (ground (arith, h))

pub mark_rejected-Updates :
    (s s' : Store) (upload_id : UploadId) (error_code : Bytes) (now : OffsetDateTime)
    → mark_rejected s upload_id error_code now ≡ ok s'
    → Updates s s'
unfolding mark_rejected can_transition_to
mark_rejected-Updates s s' upload_id error_code now h =
    one_update s s' (at_state is_rejectable upload_id)
      (rejected_with error_code (unix_timestamp now))
      (λ u hit. moved refl refl refl refl (ground arith)) (ground (arith, h))

enter_ready-Updates :
    (s s' : Store) (upload_id : UploadId) (now : ℕ) (state : UploadState)
    → enter_ready s upload_id now state ≡ ok s'
    → Updates s s'
unfolding can_transition_to
enter_ready-Updates s s' upload_id now state h =
    one_update s s' (at_state (eq_state processing) upload_id) (published now)
      (λ u hit. moved refl refl refl refl (ground arith)) (ground (arith, h))

-- A publication ends with the transition to ready, whatever the state is.
publish_derivatives-enters :
    (s s' : Store) (upload_id : UploadId) (derivatives : List PublishedDerivative)
    (now : OffsetDateTime)
    → publish_derivatives s upload_id derivatives now ≡ ok s'
    → (rows : List DerivativeRow) × (state : UploadState) × (enter_ready
          (record s { derivatives = rows })
          upload_id
          (unix_timestamp now)
          state
        ≡ ok s')
unfolding publish_derivatives
publish_derivatives-enters s s' upload_id derivatives now h =
    elim (Option-cases (upload_at upload_id s)) [
      | inl missing ↦ ground (arith, h, missing)
      | inr (u, at) ↦
          elim (Result-cases
            (insert_derivatives upload_id (unix_timestamp now) derivatives s.derivatives)) [
              | inl (rows, inserted) ↦ (rows, u.state, ground (arith, h, at, inserted))
              | inr (_, refused) ↦ ground (arith, h, at, refused)
            ]
    ]

pub publish_derivatives-Updates :
    (s s' : Store) (upload_id : UploadId) (derivatives : List PublishedDerivative)
    (now : OffsetDateTime)
    → publish_derivatives s upload_id derivatives now ≡ ok s'
    → Updates s s'
publish_derivatives-Updates s s' upload_id derivatives now h =
    let (rows, state, e) = publish_derivatives-enters s s' upload_id derivatives now h in
    followed (kept (record { uploads = refl; global = refl; by_tenant = refl })) (
      enter_ready-Updates (record s { derivatives = rows }) s' upload_id (unix_timestamp now) state
        e)
