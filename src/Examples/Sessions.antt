-- ===== src/Examples/Sessions.antt =====
-- `create_batch` with a provider that answers every request and keeps its open sessions.
use g7mediabooster.Base.{
  ◌≡◌, ◌⊎◌, inl, inr, sym, true, Bool, List, [], ◌∷◌, none, Result, ok, err, Bytes, codes, arith,
  length, any, not, select_where, eq_bytes, ◌∙◌, eq_bytes_eq, Bool-cases,
}
use g7mediabooster.Domain.Batch.{default}
use g7mediabooster.Ports.{
  ObjectStore, ObjectStoreError, not_found, MultipartSession, PresignedUpload,
}
use g7mediabooster.Uploads.{
  CreateUploadBatch, UploadRepository, UploadReservation, default_capacity,
}
use g7mediabooster.Uploads.Service.{UploadIntentService}
use g7mediabooster.Uploads.Service.Create.{create_batch}
use g7mediabooster.Uploads.Service.Create.Laws.{SessionLaws, Held}
use g7mediabooster.Uploads.Service.Create.Sessions.{Outcome, Recorded, create_batch-sessions}
use g7mediabooster.Examples.Uploads.{nil_uuid, photo, clip}

-- The provider's open sessions and the reservations of the last saved batch.
record World : Type 0 where
  pub open_sessions : List Bytes
  pub saved : List UploadReservation

abbrev start : World
start = record { open_sessions = []; saved = [] }

-- A new session is named by the number of the open ones.
abbrev next_session : World → Bytes
next_session w = length w.open_sessions ∷ []

abbrev without : Bytes → List Bytes → List Bytes
without s = select_where (λ x. not (eq_bytes x s))

abbrev signed : PresignedUpload
signed = record { url = codes "https://example"; required_headers = []; expires_at = 0 }

abbrev provider : ObjectStore World
provider = record {
  presign_get = λ q w. (err not_found, w);
  download_to = λ q w. (err not_found, w);
  put_file = λ q w. (err not_found, w);
  list_objects = λ q w. (err not_found, w);
  presign_put = λ q w. (ok signed, w);
  create_multipart = λ q w. (
    ok (record { upload_id = next_session w }),
    record w { open_sessions = next_session w ∷ w.open_sessions },
  );
  presign_part = λ q w. (ok signed, w);
  complete_multipart = λ q w. (ok tt, w);
  abort_multipart =
      λ q w. (ok tt, record w { open_sessions = without q.upload_id w.open_sessions });
  head = λ k w. (err not_found, w);
  delete = λ k w. (ok tt, w);
}

abbrev repository_of : UploadRepository World
repository_of = record {
  has_capacity = λ t n b c w. (ok true, w);
  save_batch = λ b c w. (ok tt, record w { saved = b.uploads });
  find_upload = λ t i w. (ok none, w);
  find_status = λ t i w. (ok none, w);
  mark_quarantined_and_enqueue = λ t i n p now w. (ok tt, w);
  is_delivery_allowed = λ t i w. (ok none, w);
  mark_deleted = λ t i now w. (ok tt, w);
}

abbrev service : UploadIntentService World
service = record {
  object_store = provider;
  repository = repository_of;
  policy = default;
  capacity = default_capacity;
}

abbrev is_open : Bytes → List Bytes → Bool
is_open s = any (λ x. eq_bytes x s)

opened :
    (s i : Bytes) (xs : List Bytes) → is_open s (i ∷ xs) ≡ true → (is_open s xs ≡ true) ⊎ (s ≡ i)
opened s i xs h = elim (Bool-cases (eq_bytes i s)) [
  | inl same ↦ inr (sym (eq_bytes_eq i s same))
  | inr other ↦ inl (ground (arith, h, other))
]

without-open :
    (s i : Bytes) (xs : List Bytes) → is_open s (without i xs) ≡ true → is_open s xs ≡ true
unfolding select_where
without-open s i [] h = cc
without-open s i (x ∷ xs) h = ground (arith, h, without-open s i xs)

without-closed : (i : Bytes) (xs : List Bytes) → is_open i (without i xs) ≡ true → ⊥
unfolding select_where
without-closed i [] h = cc
without-closed i (x ∷ xs) h = ground (arith, h, without-closed i xs)

same_session :
    (i j : Bytes)
    → ◌≡◌ {A = Result ObjectStoreError MultipartSession}
        (ok (record { upload_id = i }))
        (ok (record { upload_id = j }))
    → i ≡ j
same_session i j e = cc

abbrev laws : SessionLaws service
laws = record {
  Open = λ s w. is_open s w.open_sessions ≡ true;
  Saved = λ s w. Held s w.saved;
  presign_put_opens_none = λ q w s o. o;
  create_opens_one = λ q w m s e o. elim (opened s (next_session w) w.open_sessions o) [
    | inl old ↦ inl old
    | inr new ↦ inr (new ∙ same_session (next_session w) m.upload_id e)
  ];
  failed_create_opens_none = λ q w e s h o. cc;
  abort_opens_none = λ q w s o. without-open s q.upload_id w.open_sessions o;
  abort_closes = λ q w e o. without-closed q.upload_id w.open_sessions o;
  has_capacity_opens_none = λ t n b c w s o. o;
  save_opens_none = λ b c w s o. o;
  save_records = λ b c w s e h. h;
}

abbrev request : CreateUploadBatch
request = record { tenant_id = codes "t1"; files = photo ∷ clip ∷ [] }

create_batch-sessions_example :
    Outcome service laws
      (λ _ w. Recorded service laws start w)
      start
      (create_batch service nil_uuid request 1 0 (λ n. n) start)
create_batch-sessions_example =
    create_batch-sessions service laws nil_uuid request 1 0 (λ n. n) start
