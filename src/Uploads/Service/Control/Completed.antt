-- ===== src/Uploads/Service/Control/Completed.antt =====
-- What `complete_multipart` has checked when it succeeds.
use g7mediabooster.Base.{
  ℕ, ◌≡◌, sym, ap, ◌∙◌, subst, ◌⊎◌, inl, inr, true, not, List, ok, Bytes, arith,
}
use g7mediabooster.Domain.{UploadId, created, eq_state}
use g7mediabooster.Ports.{CompletedPart, CompleteMultipartRequest, OffsetDateTime}
use g7mediabooster.Ports.Effects.{Effect, ◌>>◌, lift, fail_if, convert, map_failure}
use g7mediabooster.Uploads.{
  StoredUploadReservation, MultipartControlError, invalid_state, upload_bytes_are_confirmed,
  multipart_layout,
}
use g7mediabooster.Uploads.Parts.{validate_completion}
use g7mediabooster.Uploads.Service.{UploadIntentService, verify_stored_size}
use g7mediabooster.Uploads.Service.Control.{find, quarantine, complete_found, complete_multipart}
use g7mediabooster.Ports.Chains.{after-ok, fail_if-ok, convert-ok, branches}
use g7mediabooster.Uploads.Service.Control.Confirmed.{
  IsVerified, IsQuarantined, IsFound, quarantine-IsQuarantined, verify_stored_size-IsVerified,
  find-IsFound,
}

module _ {W : Type 0} (service : UploadIntentService W) where
  open service use {object_store, repository}

  -- The provider completes the object from a complete list of parts before it is verified.
  abbrev pub IsCompleted :
      Bytes
      → UploadId
      → List CompletedPart
      → OffsetDateTime
      → StoredUploadReservation
      → ℕ × Bytes
      → W
      → W
      → Type 0
  IsCompleted tenant_id upload_id parts now stored layout w end =
      (validate_completion stored.expected_size_bytes layout.0 parts ≡ ok tt)
      × (completed : W) × (object_store.complete_multipart
            (record { key = stored.object_key; upload_id = layout.1; parts = parts }) w
          ≡ (ok tt, completed))
      × IsQuarantined service tenant_id upload_id now stored completed end

  -- The steps of a completion after its list of parts was accepted.
  abbrev completion :
      Bytes
      → UploadId
      → List CompletedPart
      → OffsetDateTime
      → StoredUploadReservation
      → ℕ × Bytes
      → Effect W MultipartControlError (Unit {0})
  completion tenant_id upload_id parts now stored layout = do
    map_failure MultipartControlError.object_store (
        object_store.complete_multipart
          (record { key = stored.object_key; upload_id = layout.1; parts = parts }))
    quarantine service tenant_id upload_id stored now

  completion-IsCompleted :
      (tenant_id : Bytes) (upload_id : UploadId) (parts : List CompletedPart) (now : OffsetDateTime)
      (stored : StoredUploadReservation) (layout : ℕ × Bytes) (w : W)
      → validate_completion stored.expected_size_bytes layout.0 parts ≡ ok tt
      → (completion tenant_id upload_id parts now stored layout w).0 ≡ ok tt
      → IsCompleted tenant_id upload_id parts now stored layout w
          (completion tenant_id upload_id parts now stored layout w).1
  completion-IsCompleted tenant_id upload_id parts now stored layout w accepted h =
      let request : CompleteMultipartRequest = record {
        key = stored.object_key;
        upload_id = layout.1;
        parts = parts;
      } in
      let answer =
        convert MultipartControlError.object_store (object_store.complete_multipart request w) in
      let (u, made, onward) = after-ok answer _ h in
      (
        accepted,
        answer.1,
        convert-ok MultipartControlError.object_store _ made,
        subst (λ v. IsQuarantined service tenant_id upload_id now stored answer.1 v)
            (ap (λ p. p.1) (sym onward))
            (quarantine-IsQuarantined service tenant_id upload_id now stored answer.1
              (ap (λ p. p.0) (sym onward) ∙ h)),
      )

  complete_found-IsCompleted :
      (tenant_id : Bytes) (upload_id : UploadId) (parts : List CompletedPart) (now : OffsetDateTime)
      (stored : StoredUploadReservation) (layout : ℕ × Bytes) (w : W)
      → (complete_found service tenant_id upload_id parts now stored layout w).0 ≡ ok tt
      → ((upload_bytes_are_confirmed stored.state ≡ true) × IsVerified service stored w)
        ⊎ ((eq_state stored.state created ≡ true)
            × IsCompleted tenant_id upload_id parts now stored layout w
                (complete_found service tenant_id upload_id parts now stored layout w).1)
  unfolding complete_found
  complete_found-IsCompleted tenant_id upload_id parts now stored layout w h =
      elim (branches (upload_bytes_are_confirmed stored.state) (verify_stored_size service stored)
        otherwise w) [
          | inl (confirmed, e) ↦ inl (
            confirmed,
            (verify_stored_size-IsVerified service stored w (ap (λ p. p.0) (sym e) ∙ h)).0,
          )
          | inr (unconfirmed, e) ↦
              let (is_created, onward) =
                fail_if-ok (not (eq_state stored.state created)) invalid_state _ w
                  (ap (λ p. p.0) (sym e) ∙ h) in
              let (u, accepted, rest) =
                after-ok (lift (validate_completion stored.expected_size_bytes layout.0 parts) w) _
                  (ap (λ p. p.0) (sym (e ∙ onward)) ∙ h) in
              let path = e ∙ onward ∙ rest in
              inr (
                ground (arith, is_created),
                subst (λ v. IsCompleted tenant_id upload_id parts now stored layout w v)
                    (ap (λ p. p.1) (sym path))
                    (completion-IsCompleted tenant_id upload_id parts now stored layout w
                      (ap (λ p. p.0) accepted) (ap (λ p. p.0) (sym path) ∙ h)),
              )
        ]
    where
      otherwise : Effect W MultipartControlError (Unit {0})
      otherwise = do
        fail_if (not (eq_state stored.state created)) invalid_state
        lift (validate_completion stored.expected_size_bytes layout.0 parts)
        completion tenant_id upload_id parts now stored layout

  -- A completion that succeeds found the reservation of a valid tenant with its multipart layout,
  -- and either its bytes were already confirmed, or it was created, the list of parts is complete,
  -- the provider completed the object from it, and the upload entered quarantine with a job in the
  -- last call of the repository. In both cases the provider, asked before that call and after the
  -- completion, reported exactly the reserved length.
  pub complete_multipart-IsCompleted :
      (tenant_id : Bytes) (upload_id : UploadId) (parts : List CompletedPart) (now : OffsetDateTime)
      (w : W)
      → (complete_multipart service tenant_id upload_id parts now w).0 ≡ ok tt
      → (stored : StoredUploadReservation) × (found : W) × (layout : ℕ × Bytes) × IsFound service
          tenant_id upload_id stored w found
        × (multipart_layout stored ≡ ok layout)
        × (((upload_bytes_are_confirmed stored.state ≡ true) × IsVerified service stored found)
            ⊎ ((eq_state stored.state created ≡ true)
                × IsCompleted tenant_id upload_id parts now stored layout found
                    (complete_multipart service tenant_id upload_id parts now w).1))
  unfolding complete_multipart
  complete_multipart-IsCompleted tenant_id upload_id parts now w h =
      let before = find service tenant_id upload_id w in
      let (stored, found, onward) = after-ok before _ h in
      let (layout, planned, rest) =
        after-ok (lift (multipart_layout stored) before.1) _ (ap (λ p. p.0) (sym onward) ∙ h) in
      let path = onward ∙ rest in
      (
        stored,
        before.1,
        layout,
        find-IsFound service tenant_id upload_id w (ap (λ p. p.0) found),
        ap (λ p. p.0) planned,
        subst
            (λ v.
              ((upload_bytes_are_confirmed stored.state ≡ true)
                × IsVerified service stored before.1)
              ⊎ ((eq_state stored.state created ≡ true)
                  × IsCompleted tenant_id upload_id parts now stored layout before.1 v))
            (ap (λ p. p.1) (sym path))
            (complete_found-IsCompleted tenant_id upload_id parts now stored layout before.1
              (ap (λ p. p.0) (sym path) ∙ h)),
      )
