-- ===== src/Uploads/Service/Create/Sessions.antt =====
-- The multipart sessions that `create_batch` opens at the provider: none is forgotten.
use g7mediabooster.Base.{
  ℕ, ◌+◌, ◌≡◌, refl, ap, sym, ◌∙◌, ◌≢◌, ◌⊎◌, inl, inr, subst, Bool, true, false, ◌&&◌, not, List,
  [], ◌∷◌, ◌++◌, Option, none, some, Result, ok, err, Bytes, arith, Bool-cases, Result-cases, is_ok,
}
use g7mediabooster.Domain.{UploadId, UploadTransfer, single_put, multipart}
use g7mediabooster.Domain.Keys.{ObjectKey}
use g7mediabooster.Ports.{
  OffsetDateTime, MultipartSession, AbortMultipartRequest, PresignedUpload, ObjectStoreError,
}
use g7mediabooster.Ports.Effects.{after, done, fail_if, convert}
use g7mediabooster.Uploads.{
  UploadFileIntent, CreateUploadBatch, UploadReservation, CreateUploadBatchError, cleanup_required,
  CreatedUploadIntent, tenant_is_valid, backpressure, UploadRepositoryError,
}
use g7mediabooster.Uploads.RawKeys.{UuidText, new-raw_key}
use g7mediabooster.Uploads.Service.{UploadIntentService, abort_one, cleanup, cleanup_or}
use g7mediabooster.Uploads.Service.Checks.{precheck, precheck-tenant}
use g7mediabooster.Uploads.Service.Create.{
  provision, provisioned, reserve_files, saved, admit, create_batch, save_error,
}
use g7mediabooster.Uploads.Service.Create.Laws.{Held, SessionLaws}

-- What `provision` hands out.
abbrev Instruction : Type 0
Instruction = Option Bytes × Option PresignedUpload

same_text : (i s : Bytes) → some i ≡ some s → i ≡ s
same_text i s h = cc

and_left : (a b : Bool) → (a && b) ≡ true → a ≡ true
and_left a b h = ground arith

and_right : (a b : Bool) → (a && b) ≡ true → b ≡ true
and_right a b h = ground arith

module _ {W : Type 0} (service : UploadIntentService W) (laws : SessionLaws service) where
  open laws use {Open, Saved}

  abort_one-Open :
      (r : UploadReservation) (o : Option Bytes) (w : W) (s : Bytes)
      → Open s (abort_one service r o w).1
      → Open s w × ((abort_one service r o w).0 ≡ true → o ≢ some s)
  unfolding abort_one
  abort_one-Open r none w s h = (h, λ _ e. cc)
  abort_one-Open r (some i) w s h = (laws.abort_opens_none request w s h, closed)
    where
      request : AbortMultipartRequest
      request = record { key = r.object_key; upload_id = i }

      answered : (a : Result ObjectStoreError (Unit {0})) → is_ok a ≡ true → a ≡ ok tt
      answered (ok u) e = refl
      answered (err x) e = cc

      closed : is_ok (service.object_store.abort_multipart request w).0 ≡ true → some i ≢ some s
      closed e same =
          laws.abort_closes request w
            (answered (service.object_store.abort_multipart request w).0 e)
            (subst (λ t. Open t (service.object_store.abort_multipart request w).1)
              (sym (same_text i s same)) h)

  -- A cleanup opens no session, and closes all that it is given if it reports so.
  cleanup-Open :
      (rs : List UploadReservation) (w : W) (s : Bytes)
      → Open s (cleanup service rs w).1
      → Open s w × ((cleanup service rs w).0 ≡ true → ¬ Held s rs)
  unfolding cleanup
  cleanup-Open [] w s h = (h, λ _ e. e)
  cleanup-Open (r ∷ rs) w s h =
      let (h', rest) = cleanup-Open rs (abort_one service r r.multipart_upload_id w).1 s h in
      let (before, first) = abort_one-Open r r.multipart_upload_id w s h' in
      (
        before,
        λ all_aborted held. elim held [
          | inl mine ↦ first (and_left _ _ all_aborted) mine
          | inr theirs ↦ rest (and_right _ _ all_aborted) theirs
        ],
      )

  -- What an error leaves behind: it says that a cleanup is required, or no new session is open.
  abbrev pub Cleaned : CreateUploadBatchError → W → W → Type 0
  Cleaned e before w = (e ≡ cleanup_required) ⊎ ((s : Bytes) → Open s w → Open s before)

  -- Every open session was open before or is held by a reservation.
  Covered : List UploadReservation → W → W → Type 0
  Covered rs before w = (s : Bytes) → Open s w → Open s before ⊎ Held s rs

  -- An answer with its state satisfies `P`, or is a clean error.
  abbrev pub Outcome :
      {A : Type 0} → (A → W → Type 0) → W → Result CreateUploadBatchError A × W → Type 0
  Outcome P before (ok a, w) = P a w
  Outcome P before (err e, w) = Cleaned e before w

  Outcome-after :
      {A B : Type 0} (P : A → W → Type 0) (Q : B → W → Type 0) (before : W)
      (m : Result CreateUploadBatchError A × W) (f : A → W → Result CreateUploadBatchError B × W)
      → Outcome P before m
      → ((a : A) (w : W) → P a w → Outcome Q before (f a w))
      → Outcome Q before (after m f)
  Outcome-after P Q before (ok a, w) f o k = k a w o
  Outcome-after P Q before (err e, w) f o k = o

  cleanup_or-Outcome :
      {A : Type 0} (P : A → W → Type 0) (rs : List UploadReservation) (e : CreateUploadBatchError)
      (before w : W)
      → Covered rs before w
      → Outcome P before (cleanup_or service rs e w)
  unfolding cleanup_or Covered
  cleanup_or-Outcome P rs e before w c = elim (Bool-cases (cleanup service rs w).0) [
    | inl aborted ↦ inr (λ s h.
        let (h', none_held) = cleanup-Open rs w s h in
        elim (c s h') [ inl old ↦ old | inr held ↦ absurd (none_held aborted held) ])
    | inr refused ↦ inl (rw refused)
  ]

  -- An answered instruction opens the session that it hands out, if it opens any; a failed one
  -- opens none.
  Made : Result ObjectStoreError Instruction → Bytes → Type 0
  Made (ok made) s = made.0 ≡ some s
  Made (err e) s = ⊥

  signed-Made :
      (p : Result ObjectStoreError PresignedUpload × W) (w : W) (s : Bytes)
      → (Open s p.1 → Open s w)
      → let q = after {B = Instruction} p (λ signed. done (none, some signed)) in
        Open s q.1 → Open s w ⊎ Made q.0 s
  signed-Made (ok a, w') w s h o = inl (h o)
  signed-Made (err e, w') w s h o = inl (h o)

  session-Made :
      (p : Result ObjectStoreError MultipartSession × W) (w : W) (s : Bytes)
      → ((m : MultipartSession) → p.0 ≡ ok m → Open s p.1 → Open s w ⊎ (s ≡ m.upload_id))
      → ((e : ObjectStoreError) → p.0 ≡ err e → Open s p.1 → Open s w)
      → let q = after {B = Instruction} p (λ m. done (some m.upload_id, none)) in
        Open s q.1 → Open s w ⊎ Made q.0 s
  unfolding Made
  session-Made (ok m, w') w s h k o = elim (h m refl o) [
    | inl old ↦ inl old
    | inr new ↦ inr (ap some (sym new))
  ]
  session-Made (err e, w') w s h k o = inl (k e refl o)

  provision-Made :
      (t : UploadTransfer) (f : UploadFileIntent) (k : ObjectKey) (w : W) (s : Bytes)
      → Open s (provision service t f k w).1
      → Open s w ⊎ Made (provision service t f k w).0 s
  unfolding provision
  provision-Made single_put f k w s h = signed-Made _ w s (laws.presign_put_opens_none _ w s) h
  provision-Made (multipart n) f k w s h =
      session-Made _ w s (λ m. laws.create_opens_one _ w m s)
        (λ e. laws.failed_create_opens_none _ w e s) h

  -- The open sessions are the earlier ones, those held, and the one just handed out.
  Instructed : List UploadReservation → W → Instruction → W → Type 0
  Instructed rs before made w =
      (s : Bytes) → Open s w → (Open s before ⊎ Held s rs) ⊎ (made.0 ≡ some s)

  provisioned-Outcome :
      (rs : List UploadReservation) (p : Result ObjectStoreError Instruction × W) (before w : W)
      → Covered rs before w
      → ((s : Bytes) → Open s p.1 → Open s w ⊎ Made p.0 s)
      → Outcome (Instructed rs before) before (provisioned service rs p)
  unfolding provisioned Instructed Covered Made
  provisioned-Outcome rs (ok made, w') before w c h =
      λ s o. elim (h s o) [ inl old ↦ inl (c s old) | inr new ↦ inr new ]
  provisioned-Outcome rs (err e, w') before w c h =
      cleanup_or-Outcome (Instructed rs before) rs (CreateUploadBatchError.object_store e) before w'
        (λ s o. elim (h s o) [ inl old ↦ c s old | inr new ↦ absurd new ])

  Held-append : (s : Bytes) (rs qs : List UploadReservation) → Held s rs → Held s (rs ++ qs)
  Held-append s [] qs h = absurd h
  Held-append s (r ∷ rs) qs (inl h) = inl h
  Held-append s (r ∷ rs) qs (inr h) = inr (Held-append s rs qs h)

  Held-last :
      (s : Bytes) (rs : List UploadReservation) (r : UploadReservation)
      → r.multipart_upload_id ≡ some s
      → Held s (rs ++ r ∷ [])
  Held-last s [] r h = inl h
  Held-last s (q ∷ rs) r h = inr (Held-last s rs r h)

  Covered-push :
      (rs : List UploadReservation) (r : UploadReservation) (made : Instruction) (before w : W)
      → r.multipart_upload_id ≡ made.0
      → Instructed rs before made w
      → Covered (rs ++ r ∷ []) before w
  unfolding Covered Instructed
  Covered-push rs r made before w e h s o = elim (h s o) [
    | inl (inl old) ↦ inl old
    | inl (inr held) ↦ inr (Held-append s rs (r ∷ []) held)
    | inr new ↦ inr (Held-last s rs r (e ∙ new))
  ]

  module _ (uuid : UuidText) (tenant_id : Bytes) (valid : tenant_is_valid tenant_id ≡ true) where
    reserve_files-Outcome :
        (expires_at : OffsetDateTime) (new_id : ℕ → UploadId) (index : ℕ)
        (files : List (UploadFileIntent × UploadTransfer)) (rs : List UploadReservation)
        (outputs : List CreatedUploadIntent) (before w : W)
        → Covered rs before w
        → Outcome
            (λ made w'. Covered made.0 before w')
            before
            (reserve_files service uuid tenant_id expires_at new_id index files rs outputs w)
    unfolding reserve_files
    reserve_files-Outcome expires_at new_id index [] rs outputs before w c = c
    reserve_files-Outcome expires_at new_id index ((file, transfer) ∷ files) rs outputs before w c =
        rw (new-raw_key uuid tenant_id (new_id index) valid) (
          Outcome-after (Instructed rs before) (λ made w'. Covered made.0 before w') before _ _
            (provisioned-Outcome rs _ before w c (provision-Made transfer file _ w))
            (λ made w' i.
              reserve_files-Outcome expires_at new_id (index + 1) files _ _ before w'
                (Covered-push rs _ made before w' refl i)))

  -- Every open session was open before, or is recorded by the repository.
  abbrev pub Recorded : W → W → Type 0
  Recorded before w = (s : Bytes) → Open s w → Open s before ⊎ Saved s w

  saved-cases :
      (rs : List UploadReservation) (p : Result UploadRepositoryError (Unit {0}) × W) (before w : W)
      → Covered rs before w
      → ((s : Bytes) → Open s p.1 → Open s w)
      → ((s : Bytes) → p.0 ≡ ok tt → Held s rs → Saved s p.1)
      → Outcome (λ _ w'. Recorded before w') before (saved service rs p)
  unfolding saved Covered
  saved-cases rs (ok u, w') before w c quiet records =
      λ s o. elim (c s (quiet s o)) [ inl old ↦ inl old | inr held ↦ inr (records s refl held) ]
  saved-cases rs (err e, w') before w c quiet records =
      cleanup_or-Outcome (λ _ w''. Recorded before w'') rs (save_error e) before w'
        (λ s o. c s (quiet s o))

  Admitted : Bytes → W → W → Type 0
  Admitted tenant_id before w =
      (tenant_is_valid tenant_id ≡ true) × ((s : Bytes) → Open s w → Open s before)

  room-Admitted :
      (t : Bytes) (ts : List UploadTransfer) (p : Result UploadRepositoryError Bool × W)
      (before : W)
      → tenant_is_valid t ≡ true
      → ((s : Bytes) → Open s p.1 → Open s before)
      → Outcome
          (λ _ w. Admitted t before w)
          before
          (after {B = List UploadTransfer}
            (convert CreateUploadBatchError.repository p)
            (λ b w. after (fail_if (not b) backpressure w) (λ _. done ts)))
  unfolding Admitted
  room-Admitted t ts (ok true, w) before v quiet = (v, quiet)
  room-Admitted t ts (ok false, w) before v quiet = inr quiet
  room-Admitted t ts (err e, w) before v quiet = inr quiet

  admit-Outcome :
      (request : CreateUploadBatch) (before : W)
      → Outcome (λ _ w. Admitted request.tenant_id before w) before (admit service request before)
  unfolding admit
  admit-Outcome request before =
      elim (Result-cases (precheck service.policy service.capacity request)) [
        | inl (checked, e) ↦
            rw (e, admit)
              (room-Admitted request.tenant_id checked.0 _ before
                (precheck-tenant service.policy service.capacity request e)
                (λ s. laws.has_capacity_opens_none _ _ _ _ before s))
        | inr (x, e) ↦ rw (e, admit) (inr (λ s o. o))
      ]

  -- No multipart session is forgotten. After a successful `create_batch` every session open at
  -- the provider was open before or is recorded in the repository; after an error, either the
  -- error is `CleanupRequired`, or every open session was open before. This needs of the provider
  -- and the repository what `SessionLaws` says.
  pub create_batch-sessions :
      (uuid : UuidText) (request : CreateUploadBatch) (batch_id : ℕ) (created_at : OffsetDateTime)
      (new_id : ℕ → UploadId) (before : W)
      → Outcome
          (λ _ w. Recorded before w)
          before
          (create_batch service uuid request batch_id created_at new_id before)
  unfolding create_batch
  create_batch-sessions uuid request batch_id created_at new_id before =
      Outcome-after (λ _ w. Admitted request.tenant_id before w) (λ _ w. Recorded before w) before _
        _ (admit-Outcome request before)
        λ transfers w₁ a₁.
          Outcome-after (λ made w. Covered made.0 before w) (λ _ w. Recorded before w) before _ _
            (reserve_files-Outcome uuid request.tenant_id (unfold Admitted in a₁.0) _ new_id 0 _ []
              [] before w₁ (unfold Covered Admitted in λ s o. inl (a₁.1 s o)))
            λ made w₂ c.
              Outcome-after (λ _ w. Recorded before w) (λ _ w. Recorded before w) before _ _
                (saved-cases made.0 _ before w₂ c (λ s. laws.save_opens_none _ _ w₂ s)
                  (λ s. laws.save_records _ _ w₂ s))
                λ _ w₃ r. r
