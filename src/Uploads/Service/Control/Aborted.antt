-- ===== src/Uploads/Service/Control/Aborted.antt =====
-- What `abort_multipart` has done when it succeeds.
use g7mediabooster.Base.{ℕ, ◌≡◌, sym, ap, ◌∙◌, subst, ◌⊎◌, inl, inr, true, not, ok, Bytes, arith}
use g7mediabooster.Domain.{UploadId, created, deleted, eq_state}
use g7mediabooster.Ports.{OffsetDateTime, AbortMultipartRequest}
use g7mediabooster.Ports.Effects.{Effect, ◌>>◌, done, lift, fail_if, convert, map_failure}
use g7mediabooster.Uploads.{
  StoredUploadReservation, MultipartControlError, invalid_state, multipart_layout,
}
use g7mediabooster.Uploads.Service.{UploadIntentService}
use g7mediabooster.Uploads.Service.Control.{find, abort_found, abort_multipart}
use g7mediabooster.Ports.Chains.{after-ok, fail_if-ok, convert-ok, branches, finish-ok}
use g7mediabooster.Uploads.Service.Control.Confirmed.{IsFound, find-IsFound}

module _ {W : Type 0} (service : UploadIntentService W) where
  open service use {object_store, repository}

  -- The provider aborts the session, and then the repository deletes the upload.
  abbrev pub IsAborted :
      Bytes → UploadId → OffsetDateTime → StoredUploadReservation → ℕ × Bytes → W → W → Type 0
  IsAborted tenant_id upload_id now stored layout w end =
      (aborted : W) × (object_store.abort_multipart
          (record { key = stored.object_key; upload_id = layout.1 }) w
        ≡ (ok tt, aborted))
      × (repository.mark_deleted tenant_id upload_id now aborted ≡ (ok tt, end))

  abbrev deletion :
      Bytes
      → UploadId
      → OffsetDateTime
      → StoredUploadReservation
      → ℕ × Bytes
      → Effect W MultipartControlError (Unit {0})
  deletion tenant_id upload_id now stored layout = do
    map_failure MultipartControlError.object_store
        (object_store.abort_multipart (record { key = stored.object_key; upload_id = layout.1 }))
    map_failure MultipartControlError.repository (repository.mark_deleted tenant_id upload_id now)
    done tt

  deletion-IsAborted :
      (tenant_id : Bytes) (upload_id : UploadId) (now : OffsetDateTime)
      (stored : StoredUploadReservation) (layout : ℕ × Bytes) (w : W)
      → (deletion tenant_id upload_id now stored layout w).0 ≡ ok tt
      → IsAborted tenant_id upload_id now stored layout w
          (deletion tenant_id upload_id now stored layout w).1
  deletion-IsAborted tenant_id upload_id now stored layout w h =
      let request : AbortMultipartRequest = record {
        key = stored.object_key;
        upload_id = layout.1;
      } in
      let answer =
        convert MultipartControlError.object_store (object_store.abort_multipart request w) in
      let (u, aborted, onward) = after-ok answer _ h in
      (
        answer.1,
        convert-ok MultipartControlError.object_store _ aborted,
        finish-ok _ _ (ap (λ p. p.0) (sym onward) ∙ h) ∙ ap (λ p. (ok tt, p.1)) (sym onward),
      )

  abort_found-IsAborted :
      (tenant_id : Bytes) (upload_id : UploadId) (now : OffsetDateTime)
      (stored : StoredUploadReservation) (layout : ℕ × Bytes) (w : W)
      → (abort_found service tenant_id upload_id now stored layout w).0 ≡ ok tt
      → ((eq_state stored.state deleted ≡ true)
          × ((abort_found service tenant_id upload_id now stored layout w).1 ≡ w))
        ⊎ ((eq_state stored.state created ≡ true)
            × IsAborted tenant_id upload_id now stored layout w
                (abort_found service tenant_id upload_id now stored layout w).1)
  unfolding abort_found
  abort_found-IsAborted tenant_id upload_id now stored layout w h =
      elim (branches (eq_state stored.state deleted) (done tt) otherwise w) [
        | inl (gone, e) ↦ inl (gone, ap (λ p. p.1) e)
        | inr (present, e) ↦
            let (is_created, onward) =
              fail_if-ok (not (eq_state stored.state created)) invalid_state _ w
                (ap (λ p. p.0) (sym e) ∙ h) in
            let path = e ∙ onward in
            inr (
              ground (arith, is_created),
              subst (λ v. IsAborted tenant_id upload_id now stored layout w v)
                  (ap (λ p. p.1) (sym path))
                  (deletion-IsAborted tenant_id upload_id now stored layout w
                    (ap (λ p. p.0) (sym path) ∙ h)),
            )
      ]
    where
      otherwise : Effect W MultipartControlError (Unit {0})
      otherwise = do
        fail_if (not (eq_state stored.state created)) invalid_state
        deletion tenant_id upload_id now stored layout

  -- An abort that succeeds found the reservation of a valid tenant with its multipart layout, and
  -- either the upload was already deleted and nothing more was called, or it was created, the
  -- provider aborted the session of the reservation, and after that the repository deleted the
  -- upload.
  pub abort_multipart-IsAborted :
      (tenant_id : Bytes) (upload_id : UploadId) (now : OffsetDateTime) (w : W)
      → (abort_multipart service tenant_id upload_id now w).0 ≡ ok tt
      → (stored : StoredUploadReservation) × (found : W) × (layout : ℕ × Bytes) × IsFound service
          tenant_id upload_id stored w found
        × (multipart_layout stored ≡ ok layout)
        × (((eq_state stored.state deleted ≡ true)
              × ((abort_multipart service tenant_id upload_id now w).1 ≡ found))
            ⊎ ((eq_state stored.state created ≡ true)
                × IsAborted tenant_id upload_id now stored layout found
                    (abort_multipart service tenant_id upload_id now w).1))
  unfolding abort_multipart
  abort_multipart-IsAborted tenant_id upload_id now w h =
      let before = find service tenant_id upload_id w in
      let (stored, found, onward) = after-ok before _ h in
      let (layout, planned, rest) =
        after-ok (lift (multipart_layout stored) before.1) _ (ap (λ p. p.0) (sym onward) ∙ h) in
      let path = onward ∙ rest in
      (
        stored,
        before.1,
        layout,
        find-IsFound service tenant_id upload_id w (ap (λ p. p.0) found),
        ap (λ p. p.0) planned,
        subst
            (λ v.
              ((eq_state stored.state deleted ≡ true) × (v ≡ before.1))
              ⊎ ((eq_state stored.state created ≡ true)
                  × IsAborted tenant_id upload_id now stored layout before.1 v))
            (ap (λ p. p.1) (sym path))
            (abort_found-IsAborted tenant_id upload_id now stored layout before.1
              (ap (λ p. p.0) (sym path) ∙ h)),
      )
