-- ===== src/Uploads/Service/Create/Laws.antt =====
-- What `create_batch` of crates/g7mb-application/src/uploads.rs relies on for its multipart
-- sessions.
use g7mediabooster.Base.{ℕ, ◌≡◌, ◌⊎◌, List, [], ◌∷◌, some, ok, err, Bytes}
use g7mediabooster.Ports.{
  PresignPutRequest, CreateMultipartRequest, MultipartSession, AbortMultipartRequest,
  ObjectStoreError,
}
use g7mediabooster.Uploads.{UploadReservation, UploadBatchReservation, UploadCapacityPolicy}
use g7mediabooster.Uploads.Service.{UploadIntentService}

-- A reservation of the list holds the session.
abbrev pub Held : Bytes → List UploadReservation → Type 0
Held s [] = ⊥
Held s (r ∷ rs) = (r.multipart_upload_id ≡ some s) ⊎ Held s rs

-- What the provider and the repository promise about sessions: only a successful creation opens
-- one, a successful abort closes the one that it names, and a saved batch records its sessions.
pub record SessionLaws {W : Type 0} (service : UploadIntentService W) : Type 1 where
  pub Open : Bytes → W → Type 0
  pub Saved : Bytes → W → Type 0
  pub presign_put_opens_none :
      (q : PresignPutRequest) (w : W) (s : Bytes)
      → Open s (service.object_store.presign_put q w).1
      → Open s w
  pub create_opens_one :
      (q : CreateMultipartRequest) (w : W) (m : MultipartSession) (s : Bytes)
      → (service.object_store.create_multipart q w).0 ≡ ok m
      → Open s (service.object_store.create_multipart q w).1
      → Open s w ⊎ (s ≡ m.upload_id)
  pub failed_create_opens_none :
      (q : CreateMultipartRequest) (w : W) (e : ObjectStoreError) (s : Bytes)
      → (service.object_store.create_multipart q w).0 ≡ err e
      → Open s (service.object_store.create_multipart q w).1
      → Open s w
  pub abort_opens_none :
      (q : AbortMultipartRequest) (w : W) (s : Bytes)
      → Open s (service.object_store.abort_multipart q w).1
      → Open s w
  pub abort_closes :
      (q : AbortMultipartRequest) (w : W)
      → (service.object_store.abort_multipart q w).0 ≡ ok tt
      → ¬ Open q.upload_id (service.object_store.abort_multipart q w).1
  pub has_capacity_opens_none :
      (t : Bytes) (n b : ℕ) (c : UploadCapacityPolicy) (w : W) (s : Bytes)
      → Open s (service.repository.has_capacity t n b c w).1
      → Open s w
  pub save_opens_none :
      (b : UploadBatchReservation) (c : UploadCapacityPolicy) (w : W) (s : Bytes)
      → Open s (service.repository.save_batch b c w).1
      → Open s w
  pub save_records :
      (b : UploadBatchReservation) (c : UploadCapacityPolicy) (w : W) (s : Bytes)
      → (service.repository.save_batch b c w).0 ≡ ok tt
      → Held s b.uploads
      → Saved s (service.repository.save_batch b c w).1
