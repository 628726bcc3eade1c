-- ===== src/Store/Reservations/Usage.antt =====
-- What a saved batch adds to the uploads: counts, bytes and rows.
use g7mediabooster.Base.{
  ℕ, ◌+◌, ◌≡◌, ◌∙◌, subst, inl, inr, List, [], ◌∷◌, Option, some, Result, ok, Result-cases,
  >>=-eq-ok, Bytes, arith, sum_by, sum_by-append,
}
use g7mediabooster.Domain.{UploadId}
use g7mediabooster.Uploads.{UploadReservation, UploadBatchReservation, UploadRepositoryError}
use g7mediabooster.Store.{UploadRow, Store}
use g7mediabooster.Store.Reservations.{
  insert_upload_row, new_upload, stored_session, insert_upload, insert_uploads,
}
use g7mediabooster.Store.Processing.{upload_at}
use g7mediabooster.Store.Moves.Accounts.{IsAccounted, insert_upload_row-IsAccounted}
use g7mediabooster.Store.Moves.Rows.{insert_upload_row-Survives}

some-store : {s t : Store} → ◌≡◌ {A = Result UploadRepositoryError Store} (ok s) (ok t) → s ≡ t
some-store e = cc

-- The insert of an upload is the insert of a new row.
pub insert_upload-row :
    (batch : UploadBatchReservation) (u : UploadReservation) (s : Store) {s' : Store}
    → insert_upload batch u s ≡ ok s'
    → (session : Option Bytes) × (s' ≡ insert_upload_row (new_upload batch u session) s)
unfolding insert_upload
insert_upload-row batch u s {s'} h =
    elim (Result-cases (stored_session u.transfer u.multipart_upload_id)) [
      | inl (session, e) ↦ (session, ground (arith, e))
      | inr (_, e) ↦ ground (arith, e)
    ]

-- A measure of the rows that is known for the new ones grows by their sum.
pub insert_uploads-sum :
    (m : UploadRow → ℕ) (k : UploadReservation → ℕ) (batch : UploadBatchReservation)
    (us : List UploadReservation) (s : Store) {s' : Store}
    → ((u : UploadReservation) (session : Option Bytes) → m (new_upload batch u session) ≡ k u)
    → insert_uploads batch us s ≡ ok s'
    → sum_by m s'.uploads ≡ sum_by m s.uploads + sum_by k us
unfolding insert_uploads insert_upload_row
insert_uploads-sum m k batch [] s {s'} known h = ground arith
insert_uploads-sum m k batch (u ∷ us) s {s'} known h =
    let (s1, first, rest) = >>=-eq-ok (insert_upload batch u s) (insert_uploads batch us) h in
    let (session, row) = insert_upload-row batch u s first in
    let added : sum_by m s1.uploads ≡ sum_by m s.uploads + k u = rw row (
      sum_by-append m s.uploads (new_upload batch u session ∷ [])
      ∙ omega (arith, known u session)) in
    omega (arith, added, insert_uploads-sum m k batch us s1 known rest)

pub insert_uploads-IsAccounted :
    (batch : UploadBatchReservation) (us : List UploadReservation) (s : Store) {s' : Store}
    → insert_uploads batch us s ≡ ok s'
    → IsAccounted s
    → IsAccounted s'
unfolding insert_uploads
insert_uploads-IsAccounted batch [] s {s'} h a = subst IsAccounted (some-store h) a
insert_uploads-IsAccounted batch (u ∷ us) s {s'} h a =
    let (s1, first, rest) = >>=-eq-ok (insert_upload batch u s) (insert_uploads batch us) h in
    let (session, row) = insert_upload-row batch u s first in
    insert_uploads-IsAccounted batch us s1 rest
      (rw row (insert_upload_row-IsAccounted (new_upload batch u session) s a))

pub insert_uploads-kept :
    (batch : UploadBatchReservation) (us : List UploadReservation) (s : Store) (id : UploadId)
    (row : UploadRow) {s' : Store}
    → insert_uploads batch us s ≡ ok s'
    → upload_at id s ≡ some row
    → upload_at id s' ≡ some row
unfolding insert_uploads
insert_uploads-kept batch [] s id row {s'} h e =
    subst (λ t. upload_at id t ≡ some row) (some-store h) e
insert_uploads-kept batch (u ∷ us) s id row {s'} h e =
    let (s1, first, rest) = >>=-eq-ok (insert_upload batch u s) (insert_uploads batch us) h in
    let (session, at) = insert_upload-row batch u s first in
    insert_uploads-kept batch us s1 id row rest
      (rw at (insert_upload_row-Survives (new_upload batch u session) s id row e))
