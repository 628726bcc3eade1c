-- ===== src/Worker.antt =====
-- apps/g7mb-worker/src/lib.rs: the policy of a worker, its outcomes and its errors.
pub mod Parts
pub mod Derivatives
pub mod Watermarks
pub mod Source
pub mod Runs
pub mod Watermarked
pub mod Names
pub mod Scopes
pub mod Published
pub mod Transformed
pub mod Validated
pub mod Settled
pub mod Outcomes
pub mod Keys
use Prim.Native.String.{String}
use g7mediabooster.Base.{
  ℕ, ◌+◌, ◌*◌, ◌^◌, ◌-◌, Bool, true, false, ◌&&◌, ◌||◌, not, Option, none, some, Result, ok, err,
  reject_if, ◌>>=◌, ◌>>◌, Bytes, codes, ◌++◌, all, length, is_empty, leb, ltb, ◌==◌, within, max,
  identifier_byte, lower_hex_byte, checked_add, checked_mul, if◌then◌else◌, is_some, List,
}
use g7mediabooster.Domain.{UploadId, MediaKind}
use g7mediabooster.Domain.Media.{ImageProbe, VideoProbe}
use g7mediabooster.Ports.{OffsetDateTime, Duration, ObjectStore, ObjectStoreError}
use g7mediabooster.Ports.Effects.{Effect}
use g7mediabooster.Uploads.Parts.{div_ceil}
use g7mediabooster.Policies.{WatermarkPosition}
use g7mediabooster.Policies.Service.{SitePolicyRepository}
use g7mediabooster.Store.Queue.{
  JobQueueError, ProcessingJob, LeasedProcessingJob, JobFailureDisposition,
}
use g7mediabooster.Store.Processing.{
  ProcessingSource, PublishedDerivative, ProcessingRepositoryError,
}

abbrev pub source_validation_preset : Bytes
source_validation_preset = codes "source-validation-v1"

abbrev pub default_derivative_preset : Bytes
default_derivative_preset = codes "board-default-v1"

abbrev pub max_watermark_bytes : ℕ
max_watermark_bytes = 16 * 1024 * 1024

abbrev pub temp_disk_permit_bytes : ℕ
temp_disk_permit_bytes = 1024 * 1024

abbrev pub max_temp_disk_bytes : ℕ
max_temp_disk_bytes = 1024 * 1024 * 1024 * 1024

-- What `?` does in a function that returns an `Option`.
abbrev pub and_then : {A B : Type 0} → Option A → (A → Option B) → Option B
and_then none f = none
and_then (some a) f = f a

unfoldable pub required_temp_disk_bytes : ℕ → ℕ → Option ℕ
required_temp_disk_bytes max_image_bytes max_video_bytes =
    and_then (checked_mul max_image_bytes 2) (λ twice.
      and_then (checked_add twice (max max_image_bytes max_video_bytes))
        (λ bytes. checked_add bytes max_watermark_bytes))

unfoldable pub temp_disk_permits : ℕ → Option ℕ
unfolding div_ceil
temp_disk_permits bytes =
    let permits : ℕ = div_ceil bytes temp_disk_permit_bytes in
    if leb permits (2 ^ 32 - 1) then some permits else none

pub data RunOutcome : Type 0 where
  idle completed rejected retry_scheduled dead_letter : RunOutcome

-- `From<JobFailureDisposition>`.
abbrev pub outcome_of : JobFailureDisposition → RunOutcome
outcome_of JobFailureDisposition.retry_scheduled = RunOutcome.retry_scheduled
outcome_of JobFailureDisposition.dead_letter = RunOutcome.dead_letter

pub record WatermarkPolicy : Type 0 where
  pub asset_path : Bytes
  pub asset_sha256 : Bytes
  pub preset_revision : Bytes
  pub position : WatermarkPosition
  pub margin_px : ℕ
  pub max_width_percent : ℕ
  pub opacity_percent : ℕ

-- `WatermarkPolicy::is_valid`.
unfoldable pub watermark_is_valid : WatermarkPolicy → Bool
watermark_is_valid w =
    not (is_empty w.asset_path)
    && length w.asset_sha256 == 64
    && all lower_hex_byte w.asset_sha256
    && within 1 32 (length w.preset_revision)
    && all identifier_byte w.preset_revision
    && leb w.margin_px 1024
    && within 1 50 w.max_width_percent
    && within 1 100 w.opacity_percent

-- `WatermarkPolicy::preset_id`.
abbrev pub watermark_preset_id : WatermarkPolicy → Bytes
watermark_preset_id w =
    default_derivative_preset
    ++ (codes "-wm-" ++ (w.preset_revision ++ (codes "-" ++ w.asset_sha256)))

pub record WorkerPolicy : Type 0 where
  pub lease_for : Duration
  pub heartbeat_every : Duration
  pub retry_delay : Duration
  pub max_attempts : ℕ
  pub max_concurrent_heavy_images : ℕ
  pub max_concurrent_videos : ℕ
  pub max_image_bytes : ℕ
  pub max_video_bytes : ℕ
  pub max_temp_disk_bytes : ℕ
  pub temp_directory : Bytes
  pub watermark : Option WatermarkPolicy

pub data WorkerError : Type 0 where
  invalid_policy : WorkerError
  queue : JobQueueError → WorkerError
  repository : ProcessingRepositoryError → WorkerError
  operational : Bytes → WorkerError

abbrev pub is_short_of : ℕ → Option ℕ → Bool
is_short_of limit none = true
is_short_of limit (some required) = ltb limit required

abbrev pub is_bad_watermark : Option WatermarkPolicy → Bool
unfolding watermark_is_valid
is_bad_watermark none = false
is_bad_watermark (some w) = not (watermark_is_valid w)

-- `WorkerPolicy::validate`. Twice the period of the heartbeat is within a duration.
unfoldable pub validate_policy : WorkerPolicy → Result WorkerError (Unit {0})
unfolding required_temp_disk_bytes temp_disk_permits
validate_policy p =
    reject_if
      (p.lease_for == 0
        || p.heartbeat_every == 0
        || leb p.lease_for (p.heartbeat_every * 2)
        || p.retry_delay == 0
        || p.max_attempts == 0
        || not (within 1 32 p.max_concurrent_heavy_images)
        || not (within 1 32 p.max_concurrent_videos)
        || p.max_image_bytes == 0
        || p.max_video_bytes == 0
        || is_short_of p.max_temp_disk_bytes
            (required_temp_disk_bytes p.max_image_bytes p.max_video_bytes)
        || ltb max_temp_disk_bytes p.max_temp_disk_bytes
        || not (is_some (temp_disk_permits p.max_temp_disk_bytes))
        || is_empty p.temp_directory
        || is_bad_watermark p.watermark)
      invalid_policy

pub data ProcessingFailure : Type 0 where
  permanent transient operational : Bytes → ProcessingFailure

abbrev pub classify_storage_error : ObjectStoreError → ProcessingFailure
classify_storage_error ObjectStoreError.content_length_mismatch =
    permanent (codes "SOURCE_LENGTH_REJECTED")
classify_storage_error (ObjectStoreError.invalid_request text) =
    permanent (codes "SOURCE_LENGTH_REJECTED")
classify_storage_error ObjectStoreError.not_found = transient (codes "SOURCE_NOT_FOUND")
classify_storage_error (ObjectStoreError.backend text) = transient (codes "STORAGE_UNAVAILABLE")

-- The texts of the failures are left out.
pub data SandboxProbeError : Type 0 where
  invalid_configuration operational spawn timeout rejected : SandboxProbeError
  output_too_large invalid_json output invalid_output : SandboxProbeError

abbrev pub classify_sandbox_error : SandboxProbeError → ProcessingFailure
classify_sandbox_error SandboxProbeError.operational =
    ProcessingFailure.operational (codes "MEDIA_RENDERER_UNAVAILABLE")
classify_sandbox_error SandboxProbeError.rejected = permanent (codes "MEDIA_DECODER_REJECTED")
classify_sandbox_error timeout = transient (codes "MEDIA_PROBE_TIMEOUT")
classify_sandbox_error SandboxProbeError.invalid_configuration =
    transient (codes "SANDBOX_UNAVAILABLE")
classify_sandbox_error spawn = transient (codes "SANDBOX_UNAVAILABLE")
classify_sandbox_error output_too_large = transient (codes "SANDBOX_UNAVAILABLE")
classify_sandbox_error invalid_json = transient (codes "SANDBOX_UNAVAILABLE")
classify_sandbox_error output = transient (codes "SANDBOX_UNAVAILABLE")
classify_sandbox_error invalid_output = permanent (codes "THUMBNAIL_REJECTED")
