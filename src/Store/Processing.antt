-- ===== src/Store/Processing.antt =====
-- crates/g7mb-application/src/processing.rs and `impl ProcessingRepository for SqliteStore` of
-- crates/g7mb-persistence-sqlite/src/lib.rs: the state of an upload that a worker processes.
use Prim.Native.String.{String}
use g7mediabooster.Base.{
  ℕ, Bool, false, ◌&&◌, ◌||◌, not, List, [], ◌∷◌, ◌++◌, Option, none, some, Result, ok, err,
  reject_if, ok_or, ◌>>=◌, ◌>>◌, Bytes, all, any, length, is_empty, ltb, leb, ◌==◌, eq_bytes,
  if◌then◌else◌, try_i64, find_where, count_where, identifier_byte, lower_hex_byte, error_code_byte,
  is_ascii_graphic,
}
use g7mediabooster.Domain.{
  UploadId, MediaKind, UploadState, quarantined, processing, ready, rejected, eq_state,
}
use g7mediabooster.Domain.Keys.{ObjectKey}
use g7mediabooster.Ports.{OffsetDateTime, unix_timestamp}
use g7mediabooster.Store.{UploadRow, DerivativeRow, Store, is_bytes}
use g7mediabooster.Store.Reservations.{update_uploads}

pub record ProcessingSource : Type 0 where
  pub upload_id : UploadId
  pub tenant_id : Bytes
  pub object_key : ObjectKey
  pub declared_kind : MediaKind
  pub expected_size_bytes : ℕ
  pub state : UploadState
  pub detected_content_type : Option Bytes
  pub source_sha256 : Option Bytes

pub record PublishedDerivative : Type 0 where
  pub object_key : ObjectKey
  pub preset_id : Bytes
  pub variant : Bytes
  pub content_type : Bytes
  pub byte_len : ℕ
  pub sha256 : Bytes

pub data ProcessingRepositoryError : Type 0 where
  processing_repository_error : String → ProcessingRepositoryError

abbrev pub source_of : Option UploadRow → Option ProcessingSource
source_of none = none
source_of (some u) = some (record {
  upload_id = u.id;
  tenant_id = u.tenant_id;
  object_key = u.object_key;
  declared_kind = u.declared_kind;
  expected_size_bytes = u.expected_size_bytes;
  state = u.state;
  detected_content_type = u.detected_content_type;
  source_sha256 = u.source_sha256;
})

-- `WHERE id = ?`.
abbrev pub upload_at : UploadId → Store → Option UploadRow
upload_at upload_id s = find_where (λ (u : UploadRow). u.id == upload_id) s.uploads

-- `find_processing_source`.
unfoldable pub find_processing_source : Store → UploadId → Option ProcessingSource
find_processing_source s upload_id = source_of (upload_at upload_id s)

-- `WHERE id = ? AND state IN …`.
abbrev pub at_state : (UploadState → Bool) → UploadId → UploadRow → Bool
at_state among upload_id u = u.id == upload_id && among u.state

abbrev pub is_sha256 : Bytes → Bool
is_sha256 digest = length digest == 64 && all lower_hex_byte digest

abbrev pub is_content_type : Bytes → Bool
is_content_type t = not (is_empty t) && leb (length t) 255 && all is_ascii_graphic t

abbrev pub is_error_code : Bytes → Bool
is_error_code c = not (is_empty c) && leb (length c) 64 && all error_code_byte c

abbrev pub started : Bytes → Bytes → ℕ → UploadRow → UploadRow
started detected_content_type source_sha256 now u = record u {
  state = processing;
  detected_content_type = some detected_content_type;
  source_sha256 = some source_sha256;
  error_code = none;
  updated_at = now;
}

abbrev pub is_started_with : Bytes → Bytes → Option UploadRow → Bool
is_started_with detected_content_type source_sha256 none = false
is_started_with detected_content_type source_sha256 (some u) =
    eq_state u.state processing
    && is_bytes detected_content_type u.detected_content_type
    && is_bytes source_sha256 u.source_sha256

-- `start_processing`, which a worker may repeat with the same facts.
unfoldable pub start_processing :
    Store → UploadId → Bytes → Bytes → OffsetDateTime → Result ProcessingRepositoryError Store
start_processing s upload_id detected_content_type source_sha256 now = do
  reject_if (not (is_content_type detected_content_type) || not (is_sha256 source_sha256))
      (processing_repository_error "detected source facts are invalid")
  if count_where (at_state (eq_state quarantined) upload_id) s.uploads == 1
      then ok (
          update_uploads (at_state (eq_state quarantined) upload_id)
            (started detected_content_type source_sha256 (unix_timestamp now)) s)
      else if is_started_with detected_content_type source_sha256 (upload_at upload_id s)
      then ok s
      else err (processing_repository_error "source is not startable from its current state")

abbrev pub narrow_token : Bytes → ℕ → Bool
narrow_token value max_len =
    not (is_empty value) && leb (length value) max_len && all identifier_byte value

unfoldable pub validate_derivative :
    PublishedDerivative → Result ProcessingRepositoryError (Unit {0})
validate_derivative d =
    reject_if
      (not (narrow_token d.preset_id 128)
        || not (narrow_token d.variant 64)
        || not (is_content_type d.content_type)
        || d.byte_len == 0
        || not (is_sha256 d.sha256))
      (processing_repository_error "published derivative facts are invalid")

abbrev pub same_identity : PublishedDerivative → PublishedDerivative → Bool
same_identity a b = eq_bytes a.preset_id b.preset_id && eq_bytes a.variant b.variant

-- The first loop of `publish_derivatives`, with the identities before the current one.
unfoldable pub validate_derivatives :
    List PublishedDerivative
    → List PublishedDerivative
    → Result ProcessingRepositoryError (Unit {0})
unfolding validate_derivative
validate_derivatives seen [] = ok tt
validate_derivatives seen (d ∷ ds) = do
  validate_derivative d
  reject_if (any (same_identity d) seen)
      (processing_repository_error "published derivative set contains a duplicate identity")
  validate_derivatives (d ∷ seen) ds

abbrev pub derivative_row : UploadId → PublishedDerivative → ℕ → DerivativeRow
derivative_row upload_id d now = record {
  upload_id = upload_id;
  preset_id = d.preset_id;
  variant = d.variant;
  object_key = d.object_key;
  content_type = d.content_type;
  byte_len = d.byte_len;
  sha256 = d.sha256;
  created_at = now;
}

abbrev pub is_row_of : UploadId → PublishedDerivative → DerivativeRow → Bool
is_row_of upload_id d row =
    row.upload_id == upload_id
    && eq_bytes row.preset_id d.preset_id
    && eq_bytes row.variant d.variant

abbrev pub same_facts : PublishedDerivative → DerivativeRow → Bool
same_facts d row =
    eq_bytes row.object_key.value d.object_key.value
    && eq_bytes row.content_type d.content_type
    && row.byte_len == d.byte_len
    && eq_bytes row.sha256 d.sha256

-- `INSERT … ON CONFLICT(upload_id, preset_id, variant) DO UPDATE … WHERE` the facts are the same:
-- an update with the same values changes nothing, and other values affect no row.
abbrev pub upsert_derivative :
    UploadId
    → PublishedDerivative
    → ℕ
    → List DerivativeRow
    → Option DerivativeRow
    → Result ProcessingRepositoryError (List DerivativeRow)
upsert_derivative upload_id d now rows (some row) = do
  reject_if (not (same_facts d row))
      (processing_repository_error "published derivative conflicts with immutable state")
  ok rows
upsert_derivative upload_id d now rows none = do
  reject_if (any (λ (row : DerivativeRow). eq_bytes row.object_key.value d.object_key.value) rows)
      (processing_repository_error "SQLite backend: UNIQUE constraint failed")
  ok (rows ++ derivative_row upload_id d now ∷ [])

-- The second loop of `publish_derivatives`.
unfoldable pub insert_derivatives :
    UploadId
    → ℕ
    → List PublishedDerivative
    → List DerivativeRow
    → Result ProcessingRepositoryError (List DerivativeRow)
insert_derivatives upload_id now [] rows = ok rows
insert_derivatives upload_id now (d ∷ ds) rows = do
  _ ←
      ok_or (try_i64 d.byte_len)
        (processing_repository_error "derivative byte length exceeds SQLite range")
  next ← upsert_derivative upload_id d now rows (find_where (is_row_of upload_id d) rows)
  insert_derivatives upload_id now ds next

abbrev pub published : ℕ → UploadRow → UploadRow
published now u = record u { state = ready; updated_at = now }

-- The end of `publish_derivatives`.
abbrev pub enter_ready : Store → UploadId → ℕ → UploadState → Result ProcessingRepositoryError Store
enter_ready s upload_id now state =
    if eq_state state processing
    then (do
      reject_if (not (count_where (at_state (eq_state processing) upload_id) s.uploads == 1))
          (processing_repository_error "source could not enter ready state")
      ok (update_uploads (at_state (eq_state processing) upload_id) (published now) s))
    else ok s

-- `publish_derivatives`: an error rolls the transaction back.
unfoldable pub publish_derivatives :
    Store
    → UploadId
    → List PublishedDerivative
    → OffsetDateTime
    → Result ProcessingRepositoryError Store
unfolding validate_derivatives insert_derivatives
publish_derivatives s upload_id derivatives now = do
  reject_if (is_empty derivatives || ltb 16 (length derivatives))
      (processing_repository_error "published derivative set size is invalid")
  validate_derivatives [] derivatives
  u ← ok_or (upload_at upload_id s) (processing_repository_error "upload was not found")
  reject_if (not (eq_state u.state processing) && not (eq_state u.state ready))
      (processing_repository_error "source is not publishing from its current state")
  rows ← insert_derivatives upload_id (unix_timestamp now) derivatives s.derivatives
  enter_ready (record s { derivatives = rows }) upload_id (unix_timestamp now) u.state

abbrev pub is_rejectable : UploadState → Bool
is_rejectable state = eq_state state quarantined || eq_state state processing

abbrev pub rejected_with : Bytes → ℕ → UploadRow → UploadRow
rejected_with error_code now u = record u {
  state = rejected;
  error_code = some error_code;
  updated_at = now;
}

abbrev pub is_rejected_with : Bytes → Option UploadRow → Bool
is_rejected_with error_code none = false
is_rejected_with error_code (some u) = eq_state u.state rejected && is_bytes error_code u.error_code

-- `mark_rejected`, which a worker may repeat with the same code.
unfoldable pub mark_rejected :
    Store → UploadId → Bytes → OffsetDateTime → Result ProcessingRepositoryError Store
mark_rejected s upload_id error_code now = do
  reject_if (not (is_error_code error_code))
      (processing_repository_error "source rejection code is invalid")
  if count_where (at_state is_rejectable upload_id) s.uploads == 1
      then ok (
          update_uploads (at_state is_rejectable upload_id)
            (rejected_with error_code (unix_timestamp now)) s)
      else if is_rejected_with error_code (upload_at upload_id s)
      then ok s
      else err (processing_repository_error "source is not rejectable from its current state")
