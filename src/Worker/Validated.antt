-- ===== src/Worker/Validated.antt =====
-- A source that a worker validated without a failure was settled before, or its derivatives were
-- made from it and published.
use g7mediabooster.Base.{
  ℕ, ◌+◌, ◌*◌, ◌≤◌, ◌≡◌, refl, sym, ap, ◌∙◌, ◌⊎◌, inl, inr, not, Option, none, some, ok_or, Bytes,
  codes, ltb, arith,
}
use g7mediabooster.Domain.{
  UploadId, MediaKind, image, video, quarantined, processing, ready, rejected,
}
use g7mediabooster.Ports.{ObjectMetadata, DownloadObjectRequest}
use g7mediabooster.Ports.Effects.{Effect, done}
use g7mediabooster.Ports.Chains.{Ran}
use g7mediabooster.Ports.Ends.{called-end, lifted-end, passed-end, branched, ended, same_end}
use g7mediabooster.Store.Processing.{ProcessingSource}
use g7mediabooster.Uploads.RawKeys.{UuidText}
use g7mediabooster.Worker.{
  max_watermark_bytes, temp_disk_permit_bytes, ProcessingFailure, permanent, transient, operational,
  classify_storage_error, classify_sandbox_error,
}
use g7mediabooster.Worker.Parts.{
  MediaFormat, MediaInspection, SourceValidationWorker, Lane, temp_disk,
}
use g7mediabooster.Worker.Derivatives.{join_path}
use g7mediabooster.Worker.Source.{
  lane_of, temp_reservation, holding_some, publish_transformed, max_length_of, validate_in,
  in_directory, validate_downloaded_source, is_settled, is_open, validate_unsettled, validate_found,
  validate_source,
}
use g7mediabooster.Worker.Watermarked.{found_some}
use g7mediabooster.Worker.Transformed.{IsTransformed, publish_transformed-IsTransformed}
use g7mediabooster.Worker.Scopes.{
  HasLane, lane_of-HasLane, settled, in_work, reservation-enough, finally-end,
}

module _ {W : Type 0} (uuid : UuidText) (worker : SourceValidationWorker W) where
  open worker use {raw_store, repository, sandbox, resource_gates, files, policy}

  -- The limit of a kind.
  abbrev pub limit_of : MediaKind → ℕ
  limit_of image = policy.max_image_bytes
  limit_of video = policy.max_video_bytes

  limit_of-max : (kind : MediaKind) → max_length_of uuid worker kind ≡ limit_of kind
  limit_of-max image = refl
  limit_of-max video = refl

  abbrev pub download_of : ProcessingSource → Bytes → DownloadObjectRequest
  download_of source directory = record {
    key = source.object_key;
    destination = join_path directory (codes "source");
    expected_length = source.expected_size_bytes;
    max_length = limit_of source.declared_kind;
  }

  -- What ran in a lane: at once, or between the acquisition and the release of a permit.
  abbrev pub InLane : Option Lane → (W → W → Type 0) → W → W → Type 0
  InLane none body w v = body w v
  InLane (some lane) body w v =
      (entered : W) × (left : W) × Ran (resource_gates.acquire lane 1) w tt entered
      × body entered left
      × (v ≡ resource_gates.release lane 1 left)

  -- In the directory of the job: the source was downloaded, has the signature of its kind, has the
  -- digest, was inspected by the sandbox, and after that was transformed in its lane.
  pub record IsValidated (source : ProcessingSource) (revision : Option ℕ) (directory : Bytes)
      (w v : W) : Type 0 where
    pub downloaded : ObjectMetadata
    pub local : W
    pub downloads : Ran (raw_store.download_to (download_of source directory)) w downloaded local
    pub format : MediaFormat
    pub detected : W
    pub detects :
        Ran
          (files.detect_file (join_path directory (codes "source")) source.declared_kind)
          local
          format
          detected
    pub digest : Bytes
    pub hashed : W
    pub hashes :
        Ran (files.sha256_file (join_path directory (codes "source"))) detected digest hashed
    pub inspection : MediaInspection
    pub inspected : W
    pub inspects :
        Ran
          (sandbox.inspect
            (join_path directory (codes "source"))
            source.declared_kind
            source.expected_size_bytes)
          hashed
          inspection
          inspected
    pub lane : Option Lane
    pub class : HasLane inspection lane
    pub transformed :
        InLane lane
          (IsTransformed uuid worker source revision directory digest inspection)
          inspected
          v

  holding_some-InLane :
      {A : Type 0} (lane : Option Lane) (body : Effect W ProcessingFailure A) (P : W → W → Type 0)
      (w v : W) {a : A}
      → ((s e : W) → Ran body s a e → P s e)
      → Ran (holding_some uuid worker lane body) w a v
      → InLane lane P w v
  holding_some-InLane none body P w v k h = k w v h
  holding_some-InLane (some lane) body P w v k h =
      let (u, w1, acquires, h1) =
        called-end (λ e. operational (codes "RESOURCE_GATE_CLOSED")) (resource_gates.acquire lane 1)
          _ w h in
      let (w2, ran, there) = finally-end (resource_gates.release lane 1) (body w1) h1 in
      (w1, w2, acquires, k w1 w2 ran, there)

  validate_in-IsValidated :
      (source : ProcessingSource) (revision : Option ℕ) (directory : Bytes) (w v : W)
      → Ran (validate_in uuid worker source revision directory) w tt v
      → IsValidated source revision directory w v
  unfolding validate_in
  validate_in-IsValidated source revision directory w v h =
      let (meta, w1, downloads, h1) =
        called-end classify_storage_error
          (raw_store.download_to (record {
            key = source.object_key;
            destination = join_path directory (codes "source");
            expected_length = source.expected_size_bytes;
            max_length = max_length_of uuid worker source.declared_kind;
          }))
          _ w h in
      let (format, w2, detects, h2) =
        called-end (λ e. permanent (codes "MEDIA_SIGNATURE_REJECTED"))
          (files.detect_file (join_path directory (codes "source")) source.declared_kind) _ w1 h1 in
      let (digest, w3, hashes, h3) =
        called-end (λ e. transient (codes "TEMP_STORAGE_UNAVAILABLE"))
          (files.sha256_file (join_path directory (codes "source"))) _ w2 h2 in
      let (inspection, w4, inspects, h4) =
        called-end classify_sandbox_error
          (sandbox.inspect (join_path directory (codes "source")) source.declared_kind
            source.expected_size_bytes)
          _ w3 h3 in
      record {
        downloaded = meta;
        local = w1;
        downloads = rw (← limit_of-max source.declared_kind) downloads;
        format = format;
        detected = w2;
        detects = detects;
        digest = digest;
        hashed = w3;
        hashes = hashes;
        inspection = inspection;
        inspected = w4;
        inspects = inspects;
        lane = lane_of inspection;
        class = lane_of-HasLane inspection;
        transformed =
            holding_some-InLane (lane_of inspection)
              (publish_transformed uuid worker source revision directory digest inspection) _ w4 v
              (λ s e.
                publish_transformed-IsTransformed uuid worker source revision directory digest
                  inspection s e)
              h4;
      }

  -- The source of an upload in quarantine or processing, within the limit of its kind, processed in
  -- a directory of its own while permits for the temporary disk were held: enough of them for the
  -- source, two images and a watermark. In the end the directory was removed and they were released.
  pub record IsProcessed (source : ProcessingSource) (revision : Option ℕ) (w v : W) : Type 0 where
    pub open_state : (source.state ≡ quarantined) ⊎ (source.state ≡ processing)
    pub bounded : source.expected_size_bytes ≤ limit_of source.declared_kind
    pub permits : ℕ
    pub enough :
        source.expected_size_bytes + policy.max_image_bytes * 2 + max_watermark_bytes
        ≤ permits * temp_disk_permit_bytes
    pub acquired : W
    pub acquires : Ran (resource_gates.acquire temp_disk permits) w tt acquired
    pub prepared : W
    pub prepares : Ran (files.create_dir_all policy.temp_directory) acquired tt prepared
    pub directory : Bytes
    pub opened : W
    pub opens : Ran (files.tempdir_in policy.temp_directory) prepared directory opened
    pub left : W
    pub validated : IsValidated source revision directory opened left
    pub ends : v ≡ resource_gates.release temp_disk permits (files.remove_directory directory left)

  validate_downloaded-IsProcessed :
      (source : ProcessingSource) (revision : Option ℕ) (w v : W)
      → (source.state ≡ quarantined) ⊎ (source.state ≡ processing)
      → Ran (validate_downloaded_source uuid worker source revision) w tt v
      → IsProcessed source revision w v
  unfolding validate_downloaded_source in_directory
  validate_downloaded-IsProcessed source revision w v open_state h =
      let too_large =
        ltb (max_length_of uuid worker source.declared_kind) source.expected_size_bytes in
      let reservation = temp_reservation source.expected_size_bytes policy.max_image_bytes in
      let invalid : ProcessingFailure = operational (codes "TEMP_DISK_RESERVATION_INVALID") in
      let (small, h1) = passed-end too_large (permanent (codes "MEDIA_SIZE_EXCEEDED")) _ w h in
      let (permits, made, h2) = lifted-end (ok_or reservation invalid) _ w h1 in
      let (a, w1, acquires, h3) =
        called-end (λ e. operational (codes "RESOURCE_GATE_CLOSED"))
          (resource_gates.acquire temp_disk permits) _ w h2 in
      let (w2, inside, released) =
        finally-end (resource_gates.release temp_disk permits)
          (in_directory uuid worker source revision w1) h3 in
      let (b, w3, prepares, h4) =
        called-end (λ e. transient (codes "TEMP_STORAGE_UNAVAILABLE"))
          (files.create_dir_all policy.temp_directory) _ w1 inside in
      let (directory, w4, opens, h5) =
        called-end (λ e. transient (codes "TEMP_STORAGE_UNAVAILABLE"))
          (files.tempdir_in policy.temp_directory) _ w3 h4 in
      let (left, ran, removed) =
        finally-end (files.remove_directory directory)
          (validate_in uuid worker source revision directory w4) h5 in
      record {
        open_state = open_state;
        bounded = rw (← limit_of-max source.declared_kind) (ground (arith, small));
        permits = permits;
        enough =
            reservation-enough source.expected_size_bytes policy.max_image_bytes permits
              (found_some reservation invalid made);
        acquired = w1;
        acquires = acquires;
        prepared = w3;
        prepares = prepares;
        directory = directory;
        opened = w4;
        opens = opens;
        left = left;
        validated = validate_in-IsValidated source revision directory w4 left ran;
        ends = released ∙ ap (resource_gates.release temp_disk permits) removed;
      }

  validate_unsettled-IsProcessed :
      (source : ProcessingSource) (revision : Option ℕ) (w v : W)
      → Ran (validate_unsettled uuid worker source revision) w tt v
      → IsProcessed source revision w v
  unfolding validate_unsettled
  validate_unsettled-IsProcessed source revision w v h =
      let (open_state, h1) =
        passed-end (not (is_open uuid worker source.state))
          (transient (codes "SOURCE_STATE_CONFLICT")) _ w h in
      validate_downloaded-IsProcessed source revision w v
        (in_work source.state (ground (arith, open_state))) h1

  -- Nothing is done for an upload that was rejected or is ready.
  abbrev pub IsUnchanged : ProcessingSource → W → W → Type 0
  IsUnchanged source w v = ((source.state ≡ rejected) ⊎ (source.state ≡ ready)) × (v ≡ w)

  validate_found-IsProcessed :
      (source : ProcessingSource) (revision : Option ℕ) (w v : W)
      → Ran (validate_found uuid worker source revision) w tt v
      → IsUnchanged source w v ⊎ IsProcessed source revision w v
  unfolding validate_found
  validate_found-IsProcessed source revision w v h =
      elim (branched (is_settled uuid worker source.state) (done tt)
        (validate_unsettled uuid worker source revision) w h) [
          | inl (final, e) ↦ let (u, there) = ended e in inl (settled source.state final, sym there)
          | inr (unsettled, e) ↦ inr (validate_unsettled-IsProcessed source revision w v e)
        ]

  -- A validation that succeeds found the source of the upload, and either the upload was rejected
  -- or ready already and nothing more was called, or it was in quarantine or processing, the source
  -- is within the limit of its kind, and these calls were made, each in the world that the last one
  -- left: permits for enough temporary disk were acquired and a directory opened; the source was
  -- downloaded, found to have the signature of its kind, digested and inspected; a lane was entered
  -- for a heavy image or a video; the repository started the processing with that digest and
  -- content type, or those of an earlier attempt are the same; the watermark of the pinned policy
  -- or of the operator was fetched and its digest compared, if there is one; the master and the
  -- thumbnail were rendered (the master of a video is its source), measured, and stored as a whole
  -- under keys that name the tenant, the upload, the digest and the preset; the repository
  -- published the two together; the lane was left, the directory removed, and the permits released.
  pub validate_source-IsProcessed :
      (upload_id : UploadId) (revision : Option ℕ) (w v : W)
      → Ran (validate_source uuid worker upload_id revision) w tt v
      → (source : ProcessingSource) × (read : W) × Ran
          (repository.find_processing_source upload_id)
          w
          (some source)
          read
        × (IsUnchanged source read v ⊎ IsProcessed source revision read v)
  unfolding validate_source
  validate_source-IsProcessed upload_id revision w v h =
      let missing : ProcessingFailure = transient (codes "SOURCE_NOT_FOUND") in
      let (found, w1, reads, h1) =
        called-end (λ e. transient (codes "DATABASE_UNAVAILABLE"))
          (repository.find_processing_source upload_id) _ w h in
      let (source, there, h2) = lifted-end (ok_or found missing) _ w1 h1 in
      (
        source,
        w1,
        same_end reads (found_some found missing there) refl,
        validate_found-IsProcessed source revision w1 v h2,
      )
