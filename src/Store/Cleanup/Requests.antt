-- ===== src/Store/Cleanup/Requests.antt =====
-- A deletion request and what readers see of the upload afterwards.
use g7mediabooster.Base.{
  ℕ, ◌≡◌, refl, ◌∙◌, ◌⊎◌, inl, inr, Bool, true, false, List, [], ◌∷◌, some, ok, Bytes, arith,
  is_some, find_where, find_where-update_where, Option-cases,
}
use g7mediabooster.Domain.{UploadId, deleted, eq_state}
use g7mediabooster.Ports.{OffsetDateTime, unix_timestamp}
use g7mediabooster.Uploads.{UploadStatusSnapshot}
use g7mediabooster.Store.{UploadRow, Store}
use g7mediabooster.Store.Reservations.{update_uploads}
use g7mediabooster.Store.Confirmations.{
  is_upload, upload_of, delivery_of, is_delivery_allowed, status_of, find_status,
}
use g7mediabooster.Store.Cleanup.{
  DeletionRequestOutcome, requestable, requested, request_stored, request_deletion,
}

-- The upload is deleted, or its deletion is requested.
abbrev IsLeaving : UploadRow → Type 0
IsLeaving u = (eq_state u.state deleted ≡ true) ⊎ (is_some u.delete_requested_at ≡ true)

request_stored-IsLeaving :
    (s s' : Store) (tenant_id : Bytes) (upload_id : UploadId) (now : ℕ) (u : UploadRow)
    (o : DeletionRequestOutcome)
    → is_upload tenant_id upload_id u ≡ true
    → request_stored s tenant_id upload_id now u ≡ ok (o, s')
    → ((s' ≡ s) × IsLeaving u)
      ⊎ ((s' ≡ update_uploads (requestable tenant_id upload_id) (requested now) s)
          × (requestable tenant_id upload_id u ≡ true))
request_stored-IsLeaving s s' tenant_id upload_id now u o own h = ground (arith, h, own)

found-own :
    (p : UploadRow → Bool) (us : List UploadRow) {u : UploadRow}
    → find_where p us ≡ some u
    → p u ≡ true
unfolding find_where
found-own p [] e = cc
found-own p (x ∷ xs) {u} e = ground (arith, e, found-own p xs {u = u})

-- The upload after a request that is not refused.
request_deletion-row :
    (s s' : Store) (tenant_id : Bytes) (upload_id : UploadId) (now : OffsetDateTime)
    (o : DeletionRequestOutcome)
    → request_deletion s tenant_id upload_id now ≡ ok (o, s')
    → (v : UploadRow) × (upload_of s' tenant_id upload_id ≡ some v) × IsLeaving v
unfolding request_deletion update_uploads
request_deletion-row s s' tenant_id upload_id now o h =
    elim (Option-cases (upload_of s tenant_id upload_id)) [
      | inl missing ↦ ground (arith, h, missing)
      | inr (u, at) ↦
          elim (request_stored-IsLeaving s s' tenant_id upload_id (unix_timestamp now) u o
            (found-own (is_upload tenant_id upload_id) s.uploads at) (ground (arith, h, at))) [
              | inl (same, leaving) ↦ (u, rw same at, leaving)
              | inr (changed, hit) ↦ (
                requested (unix_timestamp now) u,
                rw changed (
                    find_where-update_where (is_upload tenant_id upload_id)
                      (requestable tenant_id upload_id) (requested (unix_timestamp now)) s.uploads
                      (λ v k. refl)
                    ∙ rw at (rw hit refl)),
                inr refl,
              )
            ]
    ]

leaving-delivery : (v : UploadRow) → IsLeaving v → delivery_of (some v) ≡ some false
leaving-delivery v (inl gone) = ground (arith, gone)
leaving-delivery v (inr pending) = ground (arith, pending)

leaving-status :
    (s : Store) (v : UploadRow)
    → IsLeaving v
    → (snapshot : UploadStatusSnapshot) × (status_of s (some v) ≡ some snapshot)
      × (snapshot.derivatives ≡ [])
unfolding status_of
leaving-status s v (inl gone) = (_, refl, ground (arith, gone))
leaving-status s v (inr pending) = (_, refl, ground (arith, pending))

-- After a deletion request that is not refused, whatever its outcome, the delivery of the upload is
-- refused, and its status lists no derivative.
pub request_deletion-delivery :
    (s s' : Store) (tenant_id : Bytes) (upload_id : UploadId) (now : OffsetDateTime)
    (o : DeletionRequestOutcome)
    → request_deletion s tenant_id upload_id now ≡ ok (o, s')
    → (is_delivery_allowed s' tenant_id upload_id ≡ some false)
      × ((snapshot : UploadStatusSnapshot) × (find_status s' tenant_id upload_id ≡ some snapshot)
          × (snapshot.derivatives ≡ []))
unfolding is_delivery_allowed find_status
request_deletion-delivery s s' tenant_id upload_id now o h =
    let (v, at, leaving) = request_deletion-row s s' tenant_id upload_id now o h in
    (rw at (leaving-delivery v leaving), rw at (leaving-status s' v leaving))
