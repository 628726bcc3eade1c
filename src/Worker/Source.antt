-- ===== src/Worker/Source.antt =====
-- apps/g7mb-worker/src/lib.rs: `validate_source`, which downloads, inspects and transforms the
-- source of an upload and publishes its derivatives.
use g7mediabooster.Base.{
  ℕ, Bool, ◌||◌, not, [], ◌∷◌, Option, none, some, Result, ok_or, Bytes, codes, ltb, if◌then◌else◌,
  checked_add, checked_mul,
}
use g7mediabooster.Domain.{
  UploadId, MediaKind, UploadState, quarantined, processing, ready, rejected, eq_state, is_video,
}
use g7mediabooster.Domain.Media.{ImageWorkClass, heavy, standard, work_class}
use g7mediabooster.Ports.Effects.{Effect, ◌>>=◌, ◌>>◌, done, lift, fail_if, map_failure, at_time}
use g7mediabooster.Store.{is_bytes}
use g7mediabooster.Store.Processing.{ProcessingSource}
use g7mediabooster.Uploads.RawKeys.{UuidText}
use g7mediabooster.Worker.{
  max_watermark_bytes, and_then, temp_disk_permits, ProcessingFailure, permanent, transient,
  operational, classify_storage_error, classify_sandbox_error,
}
use g7mediabooster.Worker.Parts.{
  MediaInspection, content_type_of, Lane, heavy_images, videos, temp_disk, SourceValidationWorker,
}
use g7mediabooster.Worker.Derivatives.{or_else, join_path, make_master, make_thumbnail}
use g7mediabooster.Worker.Watermarks.{prepare_watermark}

-- A value that is dropped at the end of a scope, whatever the result.
abbrev pub finally : {W E A : Type 0} → (W → W) → Result E A × W → Result E A × W
finally drop_value (r, w) = (r, drop_value w)

abbrev pub scoped : {W E A : Type 0} → (W → W) → Effect W E A → Effect W E A
scoped drop_value m w = finally drop_value (m w)

-- What a transformation has to wait for.
abbrev pub lane_of_class : ImageWorkClass → Option Lane
lane_of_class heavy = some heavy_images
lane_of_class standard = none

abbrev pub lane_of : MediaInspection → Option Lane
unfolding work_class
lane_of (MediaInspection.image format content_type probe) = lane_of_class (work_class probe)
lane_of (MediaInspection.video format content_type inspection) = some videos

-- The permits of `acquire_temp_disk_permit`.
unfoldable pub temp_reservation : ℕ → ℕ → Option ℕ
unfolding temp_disk_permits
temp_reservation source_bytes max_image_bytes = and_then (checked_mul max_image_bytes 2) (λ twice.
    and_then (checked_add source_bytes twice)
      (λ bytes. and_then (checked_add bytes max_watermark_bytes) temp_disk_permits))

module _ {W : Type 0} (uuid : UuidText) (worker : SourceValidationWorker W) where
  open worker use {raw_store, sandbox, resource_gates, files, policy}

  -- The scope of a permit.
  abbrev pub holding :
      {A : Type 0} → Lane → ℕ → Effect W ProcessingFailure A → Effect W ProcessingFailure A
  holding lane permits body = do
    or_else (operational (codes "RESOURCE_GATE_CLOSED")) (resource_gates.acquire lane permits)
    scoped (resource_gates.release lane permits) body

  abbrev pub holding_some :
      {A : Type 0} → Option Lane → Effect W ProcessingFailure A → Effect W ProcessingFailure A
  holding_some none body = body
  holding_some (some lane) body = holding lane 1 body

  -- The entry into processing, or the comparison with the facts of an earlier attempt.
  unfoldable pub enter_processing :
      ProcessingSource → Bytes → Bytes → Effect W ProcessingFailure (Unit {0})
  enter_processing source content_type digest =
      if eq_state source.state quarantined
      then or_else (transient (codes "DATABASE_UNAVAILABLE")) (
          at_time worker.runtime.now_utc
            (worker.repository.start_processing source.upload_id content_type digest))
      else fail_if
          (not (is_bytes digest source.source_sha256)
            || not (is_bytes content_type source.detected_content_type))
          (permanent (codes "SOURCE_DIGEST_CHANGED"))

  -- The derivatives of an inspected source, and their publication.
  unfoldable pub publish_transformed :
      ProcessingSource
      → Option ℕ
      → Bytes
      → Bytes
      → MediaInspection
      → Effect W ProcessingFailure (Unit {0})
  unfolding enter_processing prepare_watermark make_master make_thumbnail
  publish_transformed source site_policy_revision directory digest inspection = do
    enter_processing source (content_type_of inspection) digest
    watermark ← prepare_watermark worker directory source.tenant_id site_policy_revision
    master ← make_master uuid worker source directory digest watermark inspection
    thumbnail ← make_thumbnail uuid worker source directory digest watermark inspection
    or_else (transient (codes "DATABASE_UNAVAILABLE")) (
        at_time worker.runtime.now_utc
          (worker.repository.publish_derivatives source.upload_id (master ∷ thumbnail ∷ [])))

  abbrev pub max_length_of : MediaKind → ℕ
  max_length_of kind = if is_video kind then policy.max_video_bytes else policy.max_image_bytes

  -- In the directory of the job.
  unfoldable pub validate_in :
      ProcessingSource → Option ℕ → Bytes → Effect W ProcessingFailure (Unit {0})
  unfolding publish_transformed
  validate_in source site_policy_revision directory = do
    downloaded ← map_failure classify_storage_error (
        raw_store.download_to (record {
          key = source.object_key;
          destination = join_path directory (codes "source");
          expected_length = source.expected_size_bytes;
          max_length = max_length_of source.declared_kind;
        }))
    format ←
        or_else (permanent (codes "MEDIA_SIGNATURE_REJECTED"))
          (files.detect_file (join_path directory (codes "source")) source.declared_kind)
    digest ←
        or_else (transient (codes "TEMP_STORAGE_UNAVAILABLE"))
          (files.sha256_file (join_path directory (codes "source")))
    inspection ← map_failure classify_sandbox_error (
        sandbox.inspect (join_path directory (codes "source")) source.declared_kind
          source.expected_size_bytes)
    holding_some (lane_of inspection)
        (publish_transformed source site_policy_revision directory digest inspection)

  unfoldable pub in_directory : ProcessingSource → Option ℕ → Effect W ProcessingFailure (Unit {0})
  unfolding validate_in
  in_directory source site_policy_revision = do
    or_else (transient (codes "TEMP_STORAGE_UNAVAILABLE"))
        (files.create_dir_all policy.temp_directory)
    directory ←
        or_else (transient (codes "TEMP_STORAGE_UNAVAILABLE"))
          (files.tempdir_in policy.temp_directory)
    scoped (files.remove_directory directory) (validate_in source site_policy_revision directory)

  -- `validate_downloaded_source`.
  unfoldable pub validate_downloaded_source :
      ProcessingSource → Option ℕ → Effect W ProcessingFailure (Unit {0})
  unfolding temp_reservation in_directory
  validate_downloaded_source source site_policy_revision = do
    fail_if (ltb (max_length_of source.declared_kind) source.expected_size_bytes)
        (permanent (codes "MEDIA_SIZE_EXCEEDED"))
    permits ← lift (
        ok_or (temp_reservation source.expected_size_bytes policy.max_image_bytes)
          (operational (codes "TEMP_DISK_RESERVATION_INVALID")))
    holding temp_disk permits (in_directory source site_policy_revision)

  abbrev pub is_settled : UploadState → Bool
  is_settled state = eq_state state rejected || eq_state state ready

  abbrev pub is_open : UploadState → Bool
  is_open state = eq_state state quarantined || eq_state state processing

  -- `validate_source` on what the repository found, after its first `if` and before.
  unfoldable pub validate_unsettled :
      ProcessingSource → Option ℕ → Effect W ProcessingFailure (Unit {0})
  unfolding validate_downloaded_source
  validate_unsettled source site_policy_revision = do
    fail_if (not (is_open source.state)) (transient (codes "SOURCE_STATE_CONFLICT"))
    validate_downloaded_source source site_policy_revision

  unfoldable pub validate_found :
      ProcessingSource → Option ℕ → Effect W ProcessingFailure (Unit {0})
  unfolding validate_unsettled
  validate_found source site_policy_revision =
      if is_settled source.state then done tt else validate_unsettled source site_policy_revision

  unfoldable pub validate_source : UploadId → Option ℕ → Effect W ProcessingFailure (Unit {0})
  unfolding validate_found
  validate_source upload_id site_policy_revision = do
    found ←
        or_else (transient (codes "DATABASE_UNAVAILABLE"))
          (worker.repository.find_processing_source upload_id)
    source ← lift (ok_or found (transient (codes "SOURCE_NOT_FOUND")))
    validate_found source site_policy_revision
