-- ===== src/Worker/Published.antt =====
-- What a worker did to make the derivatives of a source.
use g7mediabooster.Base.{
  ◌≤◌, ◌≡◌, refl, sym, not, ◌||◌, ◌++◌, Option, ok, ok_or, Bytes, codes, ltb, ◌==◌, arith,
}
use g7mediabooster.Domain.Keys.{ObjectKey, new}
use g7mediabooster.Ports.{ObjectMetadata, PutFileRequest}
use g7mediabooster.Ports.Effects.{after, lift}
use g7mediabooster.Ports.Chains.{Ran}
use g7mediabooster.Ports.Ends.{called-end, lifted-end, passed-end, ended, same_end}
use g7mediabooster.Store.Processing.{ProcessingSource, PublishedDerivative}
use g7mediabooster.Uploads.RawKeys.{UuidText}
use g7mediabooster.Worker.{
  WatermarkPolicy, ProcessingFailure, permanent, transient, classify_storage_error,
  classify_sandbox_error,
}
use g7mediabooster.Worker.Parts.{
  MediaInspection, Metadata, video_master_extension, SourceValidationWorker,
}
use g7mediabooster.Worker.Derivatives.{
  join_path, preset_of, derivative_path, key_of, upload_generated_derivative, make_master,
  make_thumbnail,
}
use g7mediabooster.Worker.Watermarked.{found_some}
use g7mediabooster.Worker.Names.{key_of-value, IsMasterFile, extension-IsMasterFile}

module _ {W : Type 0} (uuid : UuidText) (worker : SourceValidationWorker W) where
  open worker use {derivative_store, sandbox, files, policy}

  -- A key that names the tenant, the upload, the digest, the preset and the file.
  abbrev pub HasKey : ProcessingSource → Bytes → Bytes → Bytes → ObjectKey → Type 0
  HasKey source digest preset_id file key =
      key.value
      ≡ codes "media/"
        ++ (source.tenant_id
            ++ (codes "/"
                ++ (uuid.show source.upload_id
                    ++ (codes "/"
                        ++ (digest ++ (codes "/" ++ (preset_id ++ (codes "/" ++ file))))))))

  -- A file that was measured, within the limit, digested and stored as a whole under its key, and
  -- the derivative that tells so.
  pub record IsUploaded (path : Bytes) (key : ObjectKey) (preset_id variant content_type : Bytes)
      (w : W) (d : PublishedDerivative) (v : W) : Type 0 where
    pub metadata : Metadata
    pub measured : W
    pub measures : Ran (files.metadata path) w metadata measured
    pub positive : 1 ≤ metadata.len
    pub bounded : metadata.len ≤ policy.max_image_bytes
    pub sha256 : Bytes
    pub hashed : W
    pub hashes : Ran (files.sha256_file path) measured sha256 hashed
    pub stored : ObjectMetadata
    pub stores :
        Ran
          (derivative_store.put_file
            (record { key = key; source = path; content_type = content_type }))
          hashed
          stored
          v
    pub whole : stored.content_length ≡ metadata.len
    pub tells : d ≡ record {
      object_key = key;
      preset_id = preset_id;
      variant = variant;
      content_type = content_type;
      byte_len = metadata.len;
      sha256 = sha256;
    }

  upload_generated-IsUploaded :
      (path : Bytes) (key : ObjectKey) (preset_id variant content_type : Bytes) (w : W)
      (d : PublishedDerivative) (v : W)
      → Ran (upload_generated_derivative uuid worker path key preset_id variant content_type) w d v
      → IsUploaded path key preset_id variant content_type w d v
  unfolding upload_generated_derivative
  upload_generated-IsUploaded path key preset_id variant content_type w d v h =
      let unreadable : ProcessingFailure = transient (codes "TEMP_STORAGE_UNAVAILABLE") in
      let q : PutFileRequest = record { key = key; source = path; content_type = content_type } in
      let (metadata, w1, measures, h1) = called-end (λ e. unreadable) (files.metadata path) _ w h in
      let (small, h2) =
        passed-end (metadata.len == 0 || ltb policy.max_image_bytes metadata.len)
          (permanent (codes "DERIVATIVE_SIZE_EXCEEDED")) _ w1 h1 in
      let (sha256, w2, hashes, h3) =
        called-end (λ e. unreadable) (files.sha256_file path) _ w1 h2 in
      let (stored, w3, stores, h4) =
        called-end classify_storage_error (derivative_store.put_file q) _ w2 h3 in
      let (whole, h5) =
        passed-end (not (stored.content_length == metadata.len))
          (transient (codes "DERIVATIVE_LENGTH_MISMATCH")) _ w3 h4 in
      let (made, there) = ended h5 in
      record {
        metadata = metadata;
        measured = w1;
        measures = measures;
        positive = ground (arith, small);
        bounded = ground (arith, small);
        sha256 = sha256;
        hashed = w2;
        hashes = hashes;
        stored = stored;
        stores = same_end stores refl there;
        whole = ground (arith, whole);
        tells = sym made;
      }

  -- A file of the job's directory, stored under a key of the source as a variant in JPEG.
  abbrev pub IsRendition :
      ProcessingSource
      → Bytes
      → Bytes
      → Bytes
      → Bytes
      → Bytes
      → W
      → PublishedDerivative
      → W
      → Type 0
  IsRendition source directory digest preset_id file variant w d v =
      (key : ObjectKey) × HasKey source digest preset_id file key
      × IsUploaded (join_path directory file) key preset_id variant (codes "image/jpeg") w d v

  rendition :
      (source : ProcessingSource) (directory digest file variant : Bytes)
      (watermark : Option WatermarkPolicy) (w : W) (d : PublishedDerivative) (v : W)
      → after
          (lift {W = W}
            (key_of (new (derivative_path uuid source digest (preset_of watermark) file)))
            w)
          (λ key.
            upload_generated_derivative uuid worker
              (join_path directory file)
              key
              (preset_of watermark)
              variant
              (codes "image/jpeg"))
        ≡ (ok d, v)
      → IsRendition source directory digest (preset_of watermark) file variant w d v
  rendition source directory digest file variant watermark w d v h =
      let (key, made, h1) =
        lifted-end (key_of (new (derivative_path uuid source digest (preset_of watermark) file))) _
          w h in
      (
        key,
        key_of-value (derivative_path uuid source digest (preset_of watermark) file) key made,
        upload_generated-IsUploaded (join_path directory file) key (preset_of watermark) variant
            (codes "image/jpeg") w d v h1,
      )

  -- The sandbox rendered the thumbnail, and it was stored.
  abbrev pub IsThumbnail :
      ProcessingSource
      → Bytes
      → Bytes
      → Option WatermarkPolicy
      → Bytes
      → MediaInspection
      → W
      → PublishedDerivative
      → W
      → Type 0
  IsThumbnail source directory digest watermark preset_id inspection w d v =
      (rendered : W) × Ran
        (sandbox.thumbnail (join_path directory (codes "source")) inspection
          (join_path directory (codes "thumbnail.jpg")) watermark)
        w tt rendered
      × IsRendition source directory digest preset_id (codes "thumbnail.jpg") (codes "thumbnail")
          rendered d v

  -- The sandbox rendered the master of an image, and it was stored; the master of a video is its
  -- source, which was stored as a whole.
  abbrev pub IsMaster :
      ProcessingSource
      → Bytes
      → Bytes
      → Option WatermarkPolicy
      → Bytes
      → MediaInspection
      → W
      → PublishedDerivative
      → W
      → Type 0
  IsMaster source directory digest watermark preset_id
        (MediaInspection.image format content_type probe) w d v =
      (rendered : W) × Ran
        (sandbox.image_master (join_path directory (codes "source"))
          (join_path directory (codes "master.jpg")) watermark)
        w tt rendered
      × IsRendition source directory digest preset_id (codes "master.jpg") (codes "master") rendered
          d v
  IsMaster source directory digest watermark preset_id
        (MediaInspection.video format content_type inspection) w d v =
      (file : Bytes) × (key : ObjectKey) × (stored : ObjectMetadata) × IsMasterFile format file
      × HasKey source digest preset_id file key
      × Ran
          (derivative_store.put_file (record {
            key = key;
            source = join_path directory (codes "source");
            content_type = content_type;
          }))
          w stored v
      × (stored.content_length ≡ source.expected_size_bytes)
      × (d ≡ record {
        object_key = key;
        preset_id = preset_id;
        variant = codes "master";
        content_type = content_type;
        byte_len = source.expected_size_bytes;
        sha256 = digest;
      })

  pub make_thumbnail-IsThumbnail :
      (source : ProcessingSource) (directory digest : Bytes) (watermark : Option WatermarkPolicy)
      (inspection : MediaInspection) (w : W) (d : PublishedDerivative) (v : W)
      → Ran (make_thumbnail uuid worker source directory digest watermark inspection) w d v
      → IsThumbnail source directory digest watermark (preset_of watermark) inspection w d v
  unfolding make_thumbnail
  make_thumbnail-IsThumbnail source directory digest watermark inspection w d v h =
      let (u, w1, renders, h1) =
        called-end classify_sandbox_error
          (sandbox.thumbnail (join_path directory (codes "source")) inspection
            (join_path directory (codes "thumbnail.jpg")) watermark)
          _ w h in
      (
        w1,
        renders,
        rendition source directory digest (codes "thumbnail.jpg") (codes "thumbnail") watermark w1 d
            v h1,
      )

  pub make_master-IsMaster :
      (source : ProcessingSource) (directory digest : Bytes) (watermark : Option WatermarkPolicy)
      (inspection : MediaInspection) (w : W) (d : PublishedDerivative) (v : W)
      → Ran (make_master uuid worker source directory digest watermark inspection) w d v
      → IsMaster source directory digest watermark (preset_of watermark) inspection w d v
  unfolding make_master
  make_master-IsMaster source directory digest watermark
        (MediaInspection.image format content_type probe) w d v h =
      let (u, w1, renders, h1) =
        called-end classify_sandbox_error
          (sandbox.image_master (join_path directory (codes "source"))
            (join_path directory (codes "master.jpg")) watermark)
          _ w h in
      (
        w1,
        renders,
        rendition source directory digest (codes "master.jpg") (codes "master") watermark w1 d v h1,
      )
  make_master-IsMaster source directory digest watermark
        (MediaInspection.video format content_type inspection) w d v h =
      let unsupported : ProcessingFailure = permanent (codes "VIDEO_CONTAINER_UNSUPPORTED") in
      let (extension, known, h1) =
        lifted-end (ok_or (video_master_extension format) unsupported) _ w h in
      let text =
        derivative_path uuid source digest (preset_of watermark) (codes "master." ++ extension) in
      let (key, made, h2) = lifted-end (key_of (new text)) _ w h1 in
      let (stored, w1, stores, h3) =
        called-end classify_storage_error
          (derivative_store.put_file (record {
            key = key;
            source = join_path directory (codes "source");
            content_type = content_type;
          }))
          _ w h2 in
      let (whole, h4) =
        passed-end (not (stored.content_length == source.expected_size_bytes))
          (transient (codes "DERIVATIVE_LENGTH_MISMATCH")) _ w1 h3 in
      let (same, there) = ended h4 in
      (
        codes "master." ++ extension,
        key,
        stored,
        extension-IsMasterFile format extension
            (found_some (video_master_extension format) unsupported known),
        key_of-value text key made,
        same_end stores refl there,
        ground (arith, whole),
        sym same,
      )
