-- ===== src/Uploads/Service/Control/Confirmed.antt =====
-- What `confirm_single_upload` has checked when it succeeds.
use g7mediabooster.Base.{
  ℕ, ◌≡◌, refl, sym, ap, ◌∙◌, subst, ◌⊎◌, inl, inr, true, false, not, some, Result, ok, err, Bytes,
  ◌==◌, ==_iff, arith, Bool-cases, if◌then◌else◌,
}
use g7mediabooster.Domain.{UploadId, created, eq_state, is_multipart}
use g7mediabooster.Ports.{ObjectMetadata, ObjectStoreError, OffsetDateTime}
use g7mediabooster.Ports.Effects.{Effect, after, ◌>>◌, done, fail_if, convert}
use g7mediabooster.Uploads.{
  StoredUploadReservation, MultipartControlError, UploadRepositoryError, tenant_is_valid,
  stored_size_mismatch, invalid_state, upload_bytes_are_confirmed, initial_processing_preset,
}
use g7mediabooster.Uploads.Service.{UploadIntentService, verify_stored_size}
use g7mediabooster.Uploads.Service.Control.{find, quarantine, confirm_found, confirm_single_upload}
use g7mediabooster.Ports.Chains.{after-ok, fail_if-ok, branches, looked-ok, finish-ok}

-- The comparison of `verify_stored_size`, on what `head` answered.
sized :
    {W : Type 0} (n : ℕ) (p : Result ObjectStoreError ObjectMetadata × W)
    → let q = after (convert MultipartControlError.object_store p) (λ metadata. (do
      fail_if (not (metadata.content_length == n)) stored_size_mismatch
      done tt)) in
      q.0 ≡ ok tt
      → ((metadata : ObjectMetadata) × (p.0 ≡ ok metadata) × (metadata.content_length ≡ n))
        × (q.1 ≡ p.1)
sized n (err e, w) h = cc
sized n (ok metadata, w) h = elim (Bool-cases (metadata.content_length == n)) [
  | inl same ↦ ((metadata, refl, (==_iff metadata.content_length n).0 same), rw same refl)
  | inr other ↦ absurd (unequal other)
]
  where
    unequal : (metadata.content_length == n) ≡ false → ⊥
    unequal other = ground (arith, h, other)

module _ {W : Type 0} (service : UploadIntentService W) where
  open service use {object_store, repository}

  -- The provider reports exactly the reserved length of the object.
  abbrev pub IsVerified : StoredUploadReservation → W → Type 0
  IsVerified stored w =
      (metadata : ObjectMetadata) × ((object_store.head stored.object_key w).0 ≡ ok metadata)
      × (metadata.content_length ≡ stored.expected_size_bytes)

  pub verify_stored_size-IsVerified :
      (stored : StoredUploadReservation) (w : W)
      → (verify_stored_size service stored w).0 ≡ ok tt
      → IsVerified stored w
        × ((verify_stored_size service stored w).1 ≡ (object_store.head stored.object_key w).1)
  unfolding verify_stored_size
  verify_stored_size-IsVerified stored w h =
      sized stored.expected_size_bytes (object_store.head stored.object_key w) h

  -- The verified upload enters quarantine with its job.
  abbrev pub IsQuarantined :
      Bytes → UploadId → OffsetDateTime → StoredUploadReservation → W → W → Type 0
  IsQuarantined tenant_id upload_id now stored w end =
      IsVerified stored w
      × (repository.mark_quarantined_and_enqueue tenant_id upload_id stored.expected_size_bytes
            initial_processing_preset now (object_store.head stored.object_key w).1
          ≡ (ok tt, end))

  pub quarantine-IsQuarantined :
      (tenant_id : Bytes) (upload_id : UploadId) (now : OffsetDateTime)
      (stored : StoredUploadReservation) (w : W)
      → (quarantine service tenant_id upload_id stored now w).0 ≡ ok tt
      → IsQuarantined tenant_id upload_id now stored w
          (quarantine service tenant_id upload_id stored now w).1
  unfolding quarantine
  quarantine-IsQuarantined tenant_id upload_id now stored w h =
      let checked = verify_stored_size service stored w in
      let (u, verified, onward) = after-ok checked _ h in
      let (matched, seen) = verify_stored_size-IsVerified stored w (ap (λ p. p.0) verified) in
      let enqueued = finish-ok _ _ (ap (λ p. p.0) (sym onward) ∙ h) in
      (
        matched,
        subst (λ v. enqueue v ≡ (ok tt, (quarantine service tenant_id upload_id stored now w).1))
            seen (enqueued ∙ ap (λ p. (ok tt, p.1)) (sym onward)),
      )
    where
      enqueue : Effect W UploadRepositoryError (Unit {0})
      enqueue =
          repository.mark_quarantined_and_enqueue tenant_id upload_id stored.expected_size_bytes
            initial_processing_preset now

  -- An upload is confirmed: its bytes already were, or it was created and now enters quarantine.
  -- Its object has the reserved length in both cases.
  abbrev pub IsConfirmed :
      Bytes → UploadId → OffsetDateTime → StoredUploadReservation → W → W → Type 0
  IsConfirmed tenant_id upload_id now stored w end =
      ((upload_bytes_are_confirmed stored.state ≡ true) × IsVerified stored w)
      ⊎ ((eq_state stored.state created ≡ true)
          × IsQuarantined tenant_id upload_id now stored w end)

  -- The reservation of a valid tenant is in the repository.
  abbrev pub IsFound : Bytes → UploadId → StoredUploadReservation → W → W → Type 0
  IsFound tenant_id upload_id stored w found =
      (tenant_is_valid tenant_id ≡ true)
      × (repository.find_upload tenant_id upload_id w ≡ (ok (some stored), found))

  pub find-IsFound :
      (tenant_id : Bytes) (upload_id : UploadId) (w : W) {stored : StoredUploadReservation}
      → (find service tenant_id upload_id w).0 ≡ ok stored
      → IsFound tenant_id upload_id stored w (find service tenant_id upload_id w).1
  unfolding find
  find-IsFound tenant_id upload_id w {stored} h =
      let (valid, onward) =
        fail_if-ok (not (tenant_is_valid tenant_id)) MultipartControlError.invalid_tenant _ w h in
      (
        ground (arith, valid),
        looked-ok MultipartControlError.repository MultipartControlError.not_found
              (repository.find_upload tenant_id upload_id w) (ap (λ p. p.0) (sym onward) ∙ h)
            ∙ ap (λ p. (ok (some stored), p.1)) (sym onward),
      )

  confirm_found-IsConfirmed :
      (tenant_id : Bytes) (upload_id : UploadId) (now : OffsetDateTime)
      (stored : StoredUploadReservation) (w : W)
      → (confirm_found service tenant_id upload_id now stored w).0 ≡ ok tt
      → (is_multipart stored.transfer ≡ false)
        × IsConfirmed tenant_id upload_id now stored w
            (confirm_found service tenant_id upload_id now stored w).1
  unfolding confirm_found
  confirm_found-IsConfirmed tenant_id upload_id now stored w h =
      let (single, onward) = fail_if-ok (is_multipart stored.transfer) invalid_state _ w h in
      (single, rw onward (chosen (ap (λ p. p.0) (sym onward) ∙ h)))
    where
      otherwise : Effect W MultipartControlError (Unit {0})
      otherwise = do
        fail_if (not (eq_state stored.state created)) invalid_state
        quarantine service tenant_id upload_id stored now

      body : Effect W MultipartControlError (Unit {0})
      body =
          if upload_bytes_are_confirmed stored.state
          then verify_stored_size service stored
          else otherwise

      chosen : (body w).0 ≡ ok tt → IsConfirmed tenant_id upload_id now stored w (body w).1
      chosen k =
          elim (branches (upload_bytes_are_confirmed stored.state)
            (verify_stored_size service stored) otherwise w) [
              | inl (confirmed, e) ↦ inl (
                confirmed,
                (verify_stored_size-IsVerified stored w (ap (λ p. p.0) (sym e) ∙ k)).0,
              )
              | inr (unconfirmed, e) ↦
                  let (is_created, onward) =
                    fail_if-ok (not (eq_state stored.state created)) invalid_state _ w
                      (ap (λ p. p.0) (sym e) ∙ k) in
                  inr (
                    ground (arith, is_created),
                    subst (λ v. IsQuarantined tenant_id upload_id now stored w v)
                        (ap (λ p. p.1) (sym (e ∙ onward)))
                        (quarantine-IsQuarantined tenant_id upload_id now stored w
                          (ap (λ p. p.0) (sym (e ∙ onward)) ∙ k)),
                  )
            ]

  -- A confirmation that succeeds found the reservation of a valid tenant, which is a single upload,
  -- and either its bytes were already confirmed, or it was created and entered quarantine with a
  -- job in the last call of the repository. In both cases the provider, asked before that call,
  -- reported exactly the reserved length.
  pub confirm_single_upload-IsConfirmed :
      (tenant_id : Bytes) (upload_id : UploadId) (now : OffsetDateTime) (w : W)
      → (confirm_single_upload service tenant_id upload_id now w).0 ≡ ok tt
      → (stored : StoredUploadReservation) × (found : W) × IsFound tenant_id upload_id stored w
          found
        × (is_multipart stored.transfer ≡ false)
        × IsConfirmed tenant_id upload_id now stored found
            (confirm_single_upload service tenant_id upload_id now w).1
  unfolding confirm_single_upload
  confirm_single_upload-IsConfirmed tenant_id upload_id now w h =
      let (stored, found, onward) = after-ok (find service tenant_id upload_id w) _ h in
      let (single, confirmed) =
        confirm_found-IsConfirmed tenant_id upload_id now stored _
          (ap (λ p. p.0) (sym onward) ∙ h) in
      (
        stored,
        (find service tenant_id upload_id w).1,
        find-IsFound tenant_id upload_id w (ap (λ p. p.0) found),
        single,
        subst
            (λ v.
              IsConfirmed tenant_id upload_id now stored (find service tenant_id upload_id w).1 v)
            (ap (λ p. p.1) (sym onward)) confirmed,
      )
