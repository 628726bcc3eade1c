-- ===== src/Worker/Derivatives.antt =====
-- apps/g7mb-worker/src/lib.rs: the derivatives that a worker renders and stores.
use g7mediabooster.Base.{
  ◌||◌, not, Option, none, some, Result, ok, err, ok_or, Bytes, codes, ◌++◌, ltb, ◌==◌,
}
use g7mediabooster.Domain.Keys.{ObjectKey, ObjectKeyError, new}
use g7mediabooster.Ports.Effects.{Effect, ◌>>=◌, ◌>>◌, done, lift, fail_if, map_failure}
use g7mediabooster.Store.Processing.{ProcessingSource, PublishedDerivative}
use g7mediabooster.Uploads.RawKeys.{UuidText}
use g7mediabooster.Worker.{
  WatermarkPolicy, watermark_preset_id, default_derivative_preset, ProcessingFailure, permanent,
  transient, classify_storage_error, classify_sandbox_error,
}
use g7mediabooster.Worker.Parts.{MediaInspection, video_master_extension, SourceValidationWorker}

-- `map_err(|_| failure)`.
abbrev pub or_else : {W E F A : Type 0} → F → Effect W E A → Effect W F A
or_else failure m = map_failure (λ e. failure) m

-- `directory.path().join(name)`.
abbrev pub join_path : Bytes → Bytes → Bytes
join_path directory name = directory ++ (codes "/" ++ name)

abbrev pub preset_of : Option WatermarkPolicy → Bytes
preset_of none = default_derivative_preset
preset_of (some w) = watermark_preset_id w

-- `media/{tenant_id}/{upload_id}/{digest}/{preset_id}/{file}`.
abbrev pub derivative_path : UuidText → ProcessingSource → Bytes → Bytes → Bytes → Bytes
derivative_path uuid source digest preset_id file =
    codes "media/"
    ++ (source.tenant_id
        ++ (codes "/"
            ++ (uuid.show source.upload_id
                ++ (codes "/" ++ (digest ++ (codes "/" ++ (preset_id ++ (codes "/" ++ file))))))))

abbrev pub key_of : Result ObjectKeyError ObjectKey → Result ProcessingFailure ObjectKey
key_of (ok key) = ok key
key_of (err e) = err (transient (codes "DERIVATIVE_KEY_INVALID"))

module _ {W : Type 0} (uuid : UuidText) (worker : SourceValidationWorker W) where
  open worker use {derivative_store, sandbox}
  open worker use {files, policy}

  -- `upload_generated_derivative`.
  unfoldable pub upload_generated_derivative :
      Bytes → ObjectKey → Bytes → Bytes → Bytes → Effect W ProcessingFailure PublishedDerivative
  upload_generated_derivative source object_key preset_id variant content_type = do
    metadata ← or_else (transient (codes "TEMP_STORAGE_UNAVAILABLE")) (files.metadata source)
    fail_if (metadata.len == 0 || ltb policy.max_image_bytes metadata.len)
        (permanent (codes "DERIVATIVE_SIZE_EXCEEDED"))
    sha256 ← or_else (transient (codes "TEMP_STORAGE_UNAVAILABLE")) (files.sha256_file source)
    stored ← map_failure classify_storage_error (
        derivative_store.put_file
          (record { key = object_key; source = source; content_type = content_type }))
    fail_if (not (stored.content_length == metadata.len))
        (transient (codes "DERIVATIVE_LENGTH_MISMATCH"))
    done (record {
      object_key = object_key;
      preset_id = preset_id;
      variant = variant;
      content_type = content_type;
      byte_len = metadata.len;
      sha256 = sha256;
    })

  -- The master of an image is rendered, that of a video is its source.
  unfoldable pub make_master :
      ProcessingSource
      → Bytes
      → Bytes
      → Option WatermarkPolicy
      → MediaInspection
      → Effect W ProcessingFailure PublishedDerivative
  unfolding upload_generated_derivative
  make_master source directory digest watermark (MediaInspection.image format content_type probe) =
      (do
        map_failure classify_sandbox_error (
            sandbox.image_master (join_path directory (codes "source"))
              (join_path directory (codes "master.jpg")) watermark)
        key ← lift (
            key_of
              (new (derivative_path uuid source digest (preset_of watermark) (codes "master.jpg"))))
        upload_generated_derivative (join_path directory (codes "master.jpg")) key
            (preset_of watermark) (codes "master") (codes "image/jpeg"))
  make_master source directory digest watermark
        (MediaInspection.video format content_type inspection) =
      (do
        extension ← lift (
            ok_or (video_master_extension format) (permanent (codes "VIDEO_CONTAINER_UNSUPPORTED")))
        key ← lift (
            key_of (
              new (
                derivative_path uuid source digest (preset_of watermark)
                  (codes "master." ++ extension))))
        stored ← map_failure classify_storage_error (
            derivative_store.put_file (record {
              key = key;
              source = join_path directory (codes "source");
              content_type = content_type;
            }))
        fail_if (not (stored.content_length == source.expected_size_bytes))
            (transient (codes "DERIVATIVE_LENGTH_MISMATCH"))
        done (record {
          object_key = key;
          preset_id = preset_of watermark;
          variant = codes "master";
          content_type = content_type;
          byte_len = source.expected_size_bytes;
          sha256 = digest;
        }))

  unfoldable pub make_thumbnail :
      ProcessingSource
      → Bytes
      → Bytes
      → Option WatermarkPolicy
      → MediaInspection
      → Effect W ProcessingFailure PublishedDerivative
  unfolding upload_generated_derivative
  make_thumbnail source directory digest watermark inspection = do
    map_failure classify_sandbox_error (
        sandbox.thumbnail (join_path directory (codes "source")) inspection
          (join_path directory (codes "thumbnail.jpg")) watermark)
    key ← lift (
        key_of
          (new (derivative_path uuid source digest (preset_of watermark) (codes "thumbnail.jpg"))))
    upload_generated_derivative (join_path directory (codes "thumbnail.jpg")) key
        (preset_of watermark) (codes "thumbnail") (codes "image/jpeg")
