-- ===== src/Examples/Controls.antt =====
-- Confirmations of single and multipart uploads, with a provider that holds every object with 15
-- bytes and a repository that holds one upload. The world counts the calls.
use g7mediabooster.Base.{
  ℕ, ◌+◌, ◌≡◌, ◌⊎◌, refl, true, false, [], Option, none, some, ok, err, Bytes, codes,
}
use g7mediabooster.Domain.{UploadTransfer, single_put, multipart, created, eq_state, is_multipart}
use g7mediabooster.Domain.Batch.{default}
use g7mediabooster.Ports.{ObjectStore, not_found, PresignedUpload}
use g7mediabooster.Uploads.{
  StoredUploadReservation, UploadRepository, default_capacity, multipart_layout,
  upload_bytes_are_confirmed, tenant_is_valid,
}
use g7mediabooster.Uploads.Parts.{validate_completion, any_part_wrong, div_ceil}
use g7mediabooster.Uploads.Service.{UploadIntentService, verify_stored_size}
use g7mediabooster.Uploads.Service.Control.{
  find, quarantine, confirm_found, confirm_single_upload, complete_found, complete_multipart,
}
use g7mediabooster.Uploads.Service.Control.Confirmed.{
  IsVerified, IsFound, IsConfirmed, confirm_single_upload-IsConfirmed,
}
use g7mediabooster.Uploads.Service.Control.Completed.{IsCompleted, complete_multipart-IsCompleted}
use g7mediabooster.Domain.{deleted}
use g7mediabooster.Uploads.Service.Control.{abort_found, abort_multipart}
use g7mediabooster.Uploads.Service.Control.Aborted.{IsAborted, abort_multipart-IsAborted}
use g7mediabooster.Examples.Uploads.{two_parts}

abbrev signed : PresignedUpload
signed = record { url = codes "https://example"; required_headers = []; expires_at = 0 }

abbrev pub counted_provider : ObjectStore ℕ
counted_provider = record {
  presign_get = λ q w. (err not_found, w + 1);
  download_to = λ q w. (err not_found, w + 1);
  put_file = λ q w. (err not_found, w + 1);
  list_objects = λ q w. (err not_found, w + 1);
  presign_put = λ q w. (ok signed, w + 1);
  create_multipart = λ q w. (ok (record { upload_id = codes "s" }), w + 1);
  presign_part = λ q w. (ok signed, w + 1);
  complete_multipart = λ q w. (ok tt, w + 1);
  abort_multipart = λ q w. (ok tt, w + 1);
  head = λ k w. (ok (record { content_length = 15; content_type = none; etag = none }), w + 1);
  delete = λ k w. (ok tt, w + 1);
}

abbrev pub stored_with : UploadTransfer → Option Bytes → StoredUploadReservation
stored_with transfer session = record {
  upload_id = 7;
  object_key = record { value = codes "raw/t1/7" };
  expected_size_bytes = 15;
  state = created;
  transfer = transfer;
  multipart_upload_id = session;
}

abbrev pub holding : StoredUploadReservation → UploadRepository ℕ
holding stored = record {
  has_capacity = λ t n b c w. (ok true, w + 1);
  save_batch = λ b c w. (ok tt, w + 1);
  find_upload = λ t i w. (ok (some stored), w + 1);
  find_status = λ t i w. (ok none, w + 1);
  mark_quarantined_and_enqueue = λ t i n p now w. (ok tt, w + 1);
  is_delivery_allowed = λ t i w. (ok none, w + 1);
  mark_deleted = λ t i now w. (ok tt, w + 1);
}

abbrev service_of : StoredUploadReservation → UploadIntentService ℕ
service_of stored = record {
  object_store = counted_provider;
  repository = holding stored;
  policy = default;
  capacity = default_capacity;
}

abbrev single : UploadIntentService ℕ
single = service_of (stored_with single_put none)

abbrev in_parts : UploadIntentService ℕ
in_parts = service_of (stored_with (multipart 10) (some (codes "s")))

single_confirmed : (confirm_single_upload single (codes "t1") 7 0 0).0 ≡ ok tt
unfolding confirm_single_upload find confirm_found quarantine verify_stored_size tenant_is_valid
    upload_bytes_are_confirmed
single_confirmed = refl

parts_completed : (complete_multipart in_parts (codes "t1") 7 two_parts 0 0).0 ≡ ok tt
unfolding complete_multipart find complete_found quarantine verify_stored_size multipart_layout
    validate_completion any_part_wrong div_ceil tenant_is_valid upload_bytes_are_confirmed
parts_completed = refl

confirm_single_upload-IsConfirmed_example :
    (stored : StoredUploadReservation) × (found : ℕ) × IsFound single (codes "t1") 7 stored 0 found
    × (is_multipart stored.transfer ≡ false)
    × IsConfirmed single
        (codes "t1")
        7
        0
        stored
        found
        (confirm_single_upload single (codes "t1") 7 0 0).1
confirm_single_upload-IsConfirmed_example =
    confirm_single_upload-IsConfirmed single (codes "t1") 7 0 0 single_confirmed

complete_multipart-IsCompleted_example :
    (stored : StoredUploadReservation) × (found : ℕ) × (layout : ℕ × Bytes) × IsFound in_parts
      (codes "t1")
      7
      stored
      0
      found
    × (multipart_layout stored ≡ ok layout)
    × (((upload_bytes_are_confirmed stored.state ≡ true) × IsVerified in_parts stored found)
        ⊎ ((eq_state stored.state created ≡ true)
            × IsCompleted in_parts
                (codes "t1")
                7
                two_parts
                0
                stored
                layout
                found
                (complete_multipart in_parts (codes "t1") 7 two_parts 0 0).1))
complete_multipart-IsCompleted_example =
    complete_multipart-IsCompleted in_parts (codes "t1") 7 two_parts 0 0 parts_completed

parts_aborted : (abort_multipart in_parts (codes "t1") 7 0 0).0 ≡ ok tt
unfolding abort_multipart find abort_found multipart_layout tenant_is_valid
parts_aborted = refl

abort_multipart-IsAborted_example :
    (stored : StoredUploadReservation) × (found : ℕ) × (layout : ℕ × Bytes) × IsFound in_parts
      (codes "t1")
      7
      stored
      0
      found
    × (multipart_layout stored ≡ ok layout)
    × (((eq_state stored.state deleted ≡ true)
          × ((abort_multipart in_parts (codes "t1") 7 0 0).1 ≡ found))
        ⊎ ((eq_state stored.state created ≡ true)
            × IsAborted in_parts
                (codes "t1")
                7
                0
                stored
                layout
                found
                (abort_multipart in_parts (codes "t1") 7 0 0).1))
abort_multipart-IsAborted_example =
    abort_multipart-IsAborted in_parts (codes "t1") 7 0 0 parts_aborted
