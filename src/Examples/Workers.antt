-- ===== src/Examples/Workers.antt =====
-- A worker that processes the job of one photo.
use g7mediabooster.Base.{ℕ, ◌+◌, ◌≡◌, ◌⊎◌, refl, true, Option, none, some, ok, codes, arith}
use g7mediabooster.Domain.{image, quarantined}
use g7mediabooster.Domain.Keys.{new, validate_object_key, split}
use g7mediabooster.Domain.Media.{work_class}
use g7mediabooster.Ports.{from_secs, ObjectStore, ObjectMetadata}
use g7mediabooster.Ports.Effects.{answer}
use g7mediabooster.Ports.Chains.{Ran}
use g7mediabooster.Store.Queue.{LeasedProcessingJob, JobFailureDisposition}
use g7mediabooster.Store.Processing.{ProcessingSource, narrow_token}
use g7mediabooster.Worker.{WorkerPolicy, completed, source_validation_preset, temp_disk_permits}
use g7mediabooster.Worker.Parts.{
  SandboxProbe, JobQueue, ProcessingRepository, Files, SourceValidationWorker, MediaInspection,
  jpeg,
}
use g7mediabooster.Worker.Derivatives.{
  preset_of, derivative_path, upload_generated_derivative, make_master, make_thumbnail,
}
use g7mediabooster.Worker.Watermarks.{prepare_watermark}
use g7mediabooster.Worker.Source.{
  temp_reservation, enter_processing, publish_transformed, validate_in, in_directory,
  validate_downloaded_source, validate_unsettled, validate_found, validate_source,
}
use g7mediabooster.Worker.Runs.{settle, process_job, run_claimed, run_one}
use g7mediabooster.Worker.Validated.{IsUnchanged, IsProcessed, validate_source-IsProcessed}
use g7mediabooster.Worker.Outcomes.{IsOutcome, run_one-IsOutcome}
use g7mediabooster.Worker.Keys.{new-derivative_path}
use g7mediabooster.Delivery.Redirects.{valid_preset}
use g7mediabooster.Policies.{unchanged}
use g7mediabooster.Uploads.{tenant_is_valid}
use g7mediabooster.Domain.Keys.Grammar.{IsSegment}
use g7mediabooster.Uploads.Parts.{div_ceil}
use g7mediabooster.Examples.Controls.{counted_provider}
use g7mediabooster.Examples.Policies.{digest}
use g7mediabooster.Examples.Uploads.{nil_uuid}

abbrev stored : ObjectMetadata
stored = record { content_length = 900; content_type = none; etag = none }

abbrev provider : ObjectStore ℕ
provider = record counted_provider {
  download_to = λ q w. (ok stored, w + 1);
  put_file = λ q w. (ok stored, w + 1);
}

abbrev leased : LeasedProcessingJob
leased = record {
  job_id = 1;
  job = record { upload_id = 7; preset_id = source_validation_preset; site_policy_revision = none };
  attempts = 1;
  lease_until = from_secs 100;
  enqueued_at = from_secs 10;
}

abbrev photo_source : ProcessingSource
photo_source = record {
  upload_id = 7;
  tenant_id = codes "t1";
  object_key = record { value = codes "raw/t1/7" };
  declared_kind = image;
  expected_size_bytes = 900;
  state = quarantined;
  detected_content_type = none;
  source_sha256 = none;
}

abbrev queue : JobQueue ℕ
queue = record {
  enqueue = λ j w. (ok tt, w + 1);
  claim_next = λ worker now lease w. (ok (some leased), w + 1);
  renew = λ job worker now lease w. (ok now, w + 1);
  complete = λ job worker now w. (ok tt, w + 1);
  fail = λ job worker now retry attempts code w. (ok JobFailureDisposition.retry_scheduled, w + 1);
}

abbrev repository : ProcessingRepository ℕ
repository = record {
  find_processing_source = λ id w. (ok (some photo_source), w + 1);
  start_processing = λ id content_type sha now w. (ok tt, w + 1);
  publish_derivatives = λ id derivatives now w. (ok tt, w + 1);
  mark_rejected = λ id code now w. (ok tt, w + 1);
}

abbrev sandbox : SandboxProbe ℕ
sandbox = record {
  inspect = λ source kind length w. (
    ok (
        MediaInspection.image jpeg (codes "image/jpeg")
          (record { byte_len = 900; width = 100; height = 100; frames = 1 })),
    w + 1,
  );
  image_master = λ source output watermark w. (ok tt, w + 1);
  thumbnail = λ source inspection output watermark w. (ok tt, w + 1);
}

abbrev files : Files ℕ
files = record {
  create_dir_all = λ path w. (ok tt, w + 1);
  tempdir_in = λ path w. (ok (codes "/tmp/job"), w + 1);
  remove_directory = λ path w. w + 1;
  metadata = λ path w. (ok (record { is_file = true; len = 900 }), w + 1);
  copy = λ from_path to_path limit w. (ok 1, w + 1);
  sha256_file = λ path w. (ok digest, w + 1);
  detect_file = λ path kind w. (ok jpeg, w + 1);
}

abbrev policy : WorkerPolicy
policy = record {
  lease_for = from_secs 60;
  heartbeat_every = from_secs 10;
  retry_delay = from_secs 30;
  max_attempts = 5;
  max_concurrent_heavy_images = 1;
  max_concurrent_videos = 1;
  max_image_bytes = 1000;
  max_video_bytes = 1000;
  max_temp_disk_bytes = 33554432;
  temp_directory = codes "/tmp";
  watermark = none;
}

-- No tick comes before the processing ends.
abbrev worker : SourceValidationWorker ℕ
worker = record {
  raw_store = provider;
  derivative_store = provider;
  queue = queue;
  repository = repository;
  policy_repository = record {
    find_policy_asset = λ tenant id w. (ok none, w);
    publish_site_policy = λ snapshot w. (ok unchanged, w);
    find_active_site_policy = λ tenant w. (ok none, w);
    find_site_policy_revision = λ tenant revision w. (ok none, w);
  };
  sandbox = sandbox;
  resource_gates = record {
    acquire = λ lane permits w. (ok tt, w + 1);
    release = λ lane permits w. w + 1;
  };
  files = files;
  runtime = record {
    with_heartbeat = λ every renew process. answer process;
    now_utc = λ w. from_secs 50;
  };
  policy = policy;
}

-- The worlds at the end of the two runs, which count the calls.
validated : validate_source nil_uuid worker 7 none 0 ≡ (ok tt, 20)
unfolding validate_source validate_found validate_unsettled validate_downloaded_source in_directory
    validate_in publish_transformed enter_processing prepare_watermark make_master make_thumbnail
    upload_generated_derivative temp_reservation temp_disk_permits div_ceil work_class new
    validate_object_key split
validated = refl

validate_source-IsProcessed_example :
    (source : ProcessingSource) × (read : ℕ) × Ran
      (repository.find_processing_source 7)
      0
      (some source)
      read
    × (IsUnchanged nil_uuid worker source read 20 ⊎ IsProcessed nil_uuid worker source none read 20)
validate_source-IsProcessed_example =
    validate_source-IsProcessed nil_uuid worker 7 none 0 20 validated

ran : run_one nil_uuid worker (codes "w1") 0 ≡ (ok completed, 22)
unfolding run_one run_claimed process_job settle validate_source validate_found validate_unsettled
    validate_downloaded_source in_directory validate_in publish_transformed enter_processing
    prepare_watermark make_master make_thumbnail upload_generated_derivative temp_reservation
    temp_disk_permits div_ceil work_class new validate_object_key split
ran = refl

run_one-IsOutcome_example :
    (claimed : Option LeasedProcessingJob) × (u : ℕ) × Ran
      (λ t. queue.claim_next (codes "w1") (from_secs 50) policy.lease_for t)
      0
      claimed
      u
    × IsOutcome nil_uuid worker claimed (codes "w1") u completed 22
run_one-IsOutcome_example = run_one-IsOutcome nil_uuid worker (codes "w1") 0 completed 22 ran

thumbnail-IsSegment : IsSegment (codes "thumbnail.jpg")
thumbnail-IsSegment = record {
  named = λ e. cc;
  not_current = λ e. cc;
  not_parent = λ e. cc;
  portable = refl;
}

tenant_is_accepted : tenant_is_valid (codes "t1") ≡ true
unfolding tenant_is_valid
tenant_is_accepted = refl

new-derivative_path_example :
    (new (derivative_path nil_uuid photo_source digest (preset_of none) (codes "thumbnail.jpg"))
      ≡ ok (record {
        value =
            derivative_path nil_uuid photo_source digest (preset_of none) (codes "thumbnail.jpg");
      }))
    × (narrow_token (preset_of none) 128 ≡ true)
    × (valid_preset (preset_of none) ≡ true)
new-derivative_path_example =
    new-derivative_path nil_uuid photo_source digest none (codes "thumbnail.jpg") tenant_is_accepted
      refl tt thumbnail-IsSegment (omega arith)
