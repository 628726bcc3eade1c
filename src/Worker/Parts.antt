-- ===== src/Worker/Parts.antt =====
-- apps/g7mb-worker/src/lib.rs: what a worker works with: the queue, the repository, the sandbox of
-- the decoders, local files and resource gates.
use g7mediabooster.Base.{ℕ, Bool, Option, none, some, Result, ok, ◌>>◌, Bytes, codes, List}
use g7mediabooster.Domain.{UploadId, MediaKind}
use g7mediabooster.Domain.Media.{ImageProbe, VideoProbe}
use g7mediabooster.Ports.{OffsetDateTime, Duration, ObjectStore}
use g7mediabooster.Ports.Effects.{Effect}
use g7mediabooster.Policies.Service.{SitePolicyRepository}
use g7mediabooster.Store.Queue.{
  JobQueueError, ProcessingJob, LeasedProcessingJob, JobFailureDisposition,
}
use g7mediabooster.Store.Processing.{
  ProcessingSource, PublishedDerivative, ProcessingRepositoryError,
}
use g7mediabooster.Worker.{
  SandboxProbeError, WorkerError, WorkerPolicy, WatermarkPolicy, ProcessingFailure, validate_policy,
}

pub data MediaFormat : Type 0 where
  jpeg png gif webp avif heif mp4 quick_time webm : MediaFormat

pub record VideoInspection : Type 0 where
  pub probe : VideoProbe
  pub codec : Bytes
  pub container : Bytes

pub data MediaInspection : Type 0 where
  image : MediaFormat → Bytes → ImageProbe → MediaInspection
  video : MediaFormat → Bytes → VideoInspection → MediaInspection

abbrev pub content_type_of : MediaInspection → Bytes
content_type_of (MediaInspection.image format content_type probe) = content_type
content_type_of (MediaInspection.video format content_type inspection) = content_type

abbrev pub video_master_extension : MediaFormat → Option Bytes
video_master_extension mp4 = some (codes "mp4")
video_master_extension quick_time = some (codes "mov")
video_master_extension webm = some (codes "webm")
video_master_extension _ = none

-- `trait SandboxProbe`. A path is its text.
pub record SandboxProbe (W : Type 0) : Type 0 where
  pub inspect : Bytes → MediaKind → ℕ → Effect W SandboxProbeError MediaInspection
  pub image_master : Bytes → Bytes → Option WatermarkPolicy → Effect W SandboxProbeError (Unit {0})
  pub thumbnail :
      Bytes
      → MediaInspection
      → Bytes
      → Option WatermarkPolicy
      → Effect W SandboxProbeError (Unit {0})

-- `trait JobQueue`.
pub record JobQueue (W : Type 0) : Type 0 where
  pub enqueue : ProcessingJob → Effect W JobQueueError (Unit {0})
  pub claim_next :
      Bytes → OffsetDateTime → Duration → Effect W JobQueueError (Option LeasedProcessingJob)
  pub renew : ℕ → Bytes → OffsetDateTime → Duration → Effect W JobQueueError OffsetDateTime
  pub complete : ℕ → Bytes → OffsetDateTime → Effect W JobQueueError (Unit {0})
  pub fail :
      ℕ
      → Bytes
      → OffsetDateTime
      → OffsetDateTime
      → ℕ
      → Bytes
      → Effect W JobQueueError JobFailureDisposition

-- `trait ProcessingRepository`.
pub record ProcessingRepository (W : Type 0) : Type 0 where
  pub find_processing_source :
      UploadId → Effect W ProcessingRepositoryError (Option ProcessingSource)
  pub start_processing :
      UploadId → Bytes → Bytes → OffsetDateTime → Effect W ProcessingRepositoryError (Unit {0})
  pub publish_derivatives :
      UploadId
      → List PublishedDerivative
      → OffsetDateTime
      → Effect W ProcessingRepositoryError (Unit {0})
  pub mark_rejected :
      UploadId → Bytes → OffsetDateTime → Effect W ProcessingRepositoryError (Unit {0})

pub data IoError : Type 0 where
  io_error : IoError

pub record Metadata : Type 0 where
  pub is_file : Bool
  pub len : ℕ

-- The file system, of tokio and tempfile, with the digest of a file in hexadecimal digits and the
-- test of its signature (`detect_file` of crates/g7mb-media). `copy` writes a new file, with so
-- many bytes of another one at most, and returns their number.
pub record Files (W : Type 0) : Type 0 where
  pub create_dir_all : Bytes → Effect W IoError (Unit {0})
  pub tempdir_in : Bytes → Effect W IoError Bytes
  pub remove_directory : Bytes → W → W
  pub metadata : Bytes → Effect W IoError Metadata
  pub copy : Bytes → Bytes → ℕ → Effect W IoError ℕ
  pub sha256_file : Bytes → Effect W IoError Bytes
  pub detect_file : Bytes → MediaKind → Effect W IoError MediaFormat

pub data Lane : Type 0 where
  heavy_images videos temp_disk : Lane

pub data Closed : Type 0 where
  gate_closed : Closed

-- The semaphores of tokio: an acquisition waits until so many permits are free.
pub record ResourceGates (W : Type 0) : Type 0 where
  pub acquire : Lane → ℕ → Effect W Closed (Unit {0})
  pub release : Lane → ℕ → W → W

-- `tokio::select!` of the processing and of the ticks of the heartbeat, at each of which a lease is
-- renewed. It ends with the result of the processing, or with the first renewal that fails.
pub record Runtime (W : Type 0) : Type 0 where
  pub with_heartbeat :
      Duration
      → Effect W WorkerError (Unit {0})
      → Effect W ProcessingFailure (Unit {0})
      → Effect W WorkerError (Result ProcessingFailure (Unit {0}))
  pub now_utc : W → OffsetDateTime

pub record SourceValidationWorker (W : Type 0) : Type 0 where
  pub raw_store : ObjectStore W
  pub derivative_store : ObjectStore W
  pub queue : JobQueue W
  pub repository : ProcessingRepository W
  pub policy_repository : SitePolicyRepository W
  pub sandbox : SandboxProbe W
  pub resource_gates : ResourceGates W
  pub files : Files W
  pub runtime : Runtime W
  pub policy : WorkerPolicy

-- `SourceValidationWorker::new`, whose gates are the argument's.
unfoldable pub new_worker :
    {W : Type 0} → SourceValidationWorker W → Result WorkerError (SourceValidationWorker W)
unfolding validate_policy
new_worker worker = do validate_policy worker.policy; ok worker
