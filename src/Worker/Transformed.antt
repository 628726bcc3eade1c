-- ===== src/Worker/Transformed.antt =====
-- What a worker did with an inspected source, up to the publication of the derivatives.
use g7mediabooster.Base.{
  ℕ, ◌≡◌, refl, ap, ◌⊎◌, inl, inr, Bool, true, false, not, ◌||◌, [], ◌∷◌, Option, none, some, Bytes,
  codes, eq_bytes_eq,
}
use g7mediabooster.Domain.{
  UploadState, created, uploaded, quarantined, processing, ready, rejected, failed, deleted,
  eq_state,
}
use g7mediabooster.Ports.Effects.{at_time, fail_if}
use g7mediabooster.Ports.Chains.{Ran}
use g7mediabooster.Ports.Ends.{chained-end, last-end, branched}
use g7mediabooster.Store.{is_bytes}
use g7mediabooster.Store.Processing.{ProcessingSource, PublishedDerivative}
use g7mediabooster.Uploads.RawKeys.{UuidText}
use g7mediabooster.Worker.{WatermarkPolicy, ProcessingFailure, permanent, transient}
use g7mediabooster.Worker.Parts.{MediaInspection, content_type_of, SourceValidationWorker}
use g7mediabooster.Worker.Derivatives.{or_else, preset_of, make_master, make_thumbnail}
use g7mediabooster.Worker.Watermarks.{prepare_watermark}
use g7mediabooster.Worker.Source.{enter_processing, publish_transformed}
use g7mediabooster.Worker.Watermarked.{IsMarked, prepare_watermark-IsMarked}
use g7mediabooster.Worker.Names.{IsPreset, preset_of-IsPreset}
use g7mediabooster.Worker.Published.{
  IsMaster, IsThumbnail, make_master-IsMaster, make_thumbnail-IsThumbnail,
}

-- The content type that the inspection found.
abbrev pub HasType : MediaInspection → Bytes → Type 0
HasType (MediaInspection.image format found probe) content_type = content_type ≡ found
HasType (MediaInspection.video format found inspection) content_type = content_type ≡ found

content_type_of-HasType : (i : MediaInspection) → HasType i (content_type_of i)
content_type_of-HasType (MediaInspection.image format found probe) = refl
content_type_of-HasType (MediaInspection.video format found inspection) = refl

is_column : (b : Bytes) (o : Option Bytes) → is_bytes b o ≡ true → o ≡ some b
is_column b none h = cc
is_column b (some c) h = let same = eq_bytes_eq c b h in cc

is_quarantined : (s : UploadState) → eq_state s quarantined ≡ true → s ≡ quarantined
is_quarantined created h = cc
is_quarantined uploaded h = cc
is_quarantined quarantined h = refl
is_quarantined processing h = cc
is_quarantined ready h = cc
is_quarantined rejected h = cc
is_quarantined failed h = cc
is_quarantined deleted h = cc

not_quarantined : (s : UploadState) → eq_state s quarantined ≡ false → ¬ (s ≡ quarantined)
not_quarantined s h e = cc (h, ap (λ x. eq_state x quarantined) e)

module _ {W : Type 0} (uuid : UuidText) (worker : SourceValidationWorker W) where
  open worker use {repository, runtime}

  -- The repository started the processing of an upload in quarantine with the digest and the content
  -- type, or those of an earlier attempt are the same.
  abbrev pub IsEntered : ProcessingSource → Bytes → Bytes → W → W → Type 0
  IsEntered source content_type digest w v =
      ((source.state ≡ quarantined)
        × Ran
            (λ u.
              repository.start_processing source.upload_id content_type digest (runtime.now_utc u)
                u)
            w tt v)
      ⊎ (¬ (source.state ≡ quarantined)
          × (source.source_sha256 ≡ some digest)
          × (source.detected_content_type ≡ some content_type)
          × (v ≡ w))

  -- From an inspected source to the publication, each step in the world that the last one left: it
  -- entered processing, the watermark was prepared, the master and the thumbnail were made and
  -- stored, and the repository published the two.
  pub record IsTransformed (source : ProcessingSource) (revision : Option ℕ)
      (directory digest : Bytes) (inspection : MediaInspection) (w v : W) : Type 0 where
    pub content_type : Bytes
    pub typed : HasType inspection content_type
    pub entered : W
    pub enters : IsEntered source content_type digest w entered
    pub watermark : Option WatermarkPolicy
    pub prepared : W
    pub prepares : IsMarked worker directory source.tenant_id revision entered watermark prepared
    pub preset_id : Bytes
    pub preset : IsPreset watermark preset_id
    pub master : PublishedDerivative
    pub rendered : W
    pub renders :
        IsMaster uuid worker source directory digest watermark preset_id inspection prepared master
          rendered
    pub thumbnail : PublishedDerivative
    pub shrunk : W
    pub shrinks :
        IsThumbnail uuid worker source directory digest watermark preset_id inspection rendered
          thumbnail shrunk
    pub publishes :
        Ran
          (λ u.
            repository.publish_derivatives source.upload_id
              (master ∷ thumbnail ∷ [])
              (runtime.now_utc u)
              u)
          shrunk
          tt
          v

  same_facts :
      (source : ProcessingSource) (content_type digest : Bytes) (w v : W)
      → Ran
          (fail_if
            (not (is_bytes digest source.source_sha256)
              || not (is_bytes content_type source.detected_content_type))
            (permanent (codes "SOURCE_DIGEST_CHANGED")))
          w
          tt
          v
      → (source.source_sha256 ≡ some digest)
        × (source.detected_content_type ≡ some content_type)
        × (v ≡ w)
  same_facts source content_type digest w v h =
      let (d, c, there) =
        both (is_bytes digest source.source_sha256)
          (is_bytes content_type source.detected_content_type) h in
      (
        is_column digest source.source_sha256 d,
        is_column content_type source.detected_content_type c,
        there,
      )
    where
      both :
          (a b : Bool)
          → Ran
              (fail_if {E = ProcessingFailure}
                (not a || not b)
                (permanent (codes "SOURCE_DIGEST_CHANGED")))
              w
              tt
              v
          → (a ≡ true) × (b ≡ true) × (v ≡ w)
      both true true e = (refl, refl, cc)
      both true false e = cc
      both false b e = cc

  enter_processing-IsEntered :
      (source : ProcessingSource) (content_type digest : Bytes) (w v : W)
      → Ran (enter_processing uuid worker source content_type digest) w tt v
      → IsEntered source content_type digest w v
  unfolding enter_processing
  enter_processing-IsEntered source content_type digest w v h =
      let unavailable : ProcessingFailure = transient (codes "DATABASE_UNAVAILABLE") in
      let start =
        at_time runtime.now_utc
          (repository.start_processing source.upload_id content_type digest) in
      elim (branched (eq_state source.state quarantined) (or_else unavailable start)
        (fail_if
          (not (is_bytes digest source.source_sha256)
            || not (is_bytes content_type source.detected_content_type))
          (permanent (codes "SOURCE_DIGEST_CHANGED")))
        w h) [
          | inl (first, e) ↦
              inl (is_quarantined source.state first, last-end (λ x. unavailable) start w e)
          | inr (again, e) ↦
              let (same_digest, same_type, there) = same_facts source content_type digest w v e in
              inr (not_quarantined source.state again, same_digest, same_type, there)
        ]

  pub publish_transformed-IsTransformed :
      (source : ProcessingSource) (revision : Option ℕ) (directory digest : Bytes)
      (inspection : MediaInspection) (w v : W)
      → Ran (publish_transformed uuid worker source revision directory digest inspection) w tt v
      → IsTransformed source revision directory digest inspection w v
  unfolding publish_transformed
  publish_transformed-IsTransformed source revision directory digest inspection w v h =
      let (u, w1, enters, h1) =
        chained-end (enter_processing uuid worker source (content_type_of inspection) digest) _ w
          h in
      let (watermark, w2, prepares, h2) =
        chained-end (prepare_watermark worker directory source.tenant_id revision) _ w1 h1 in
      let (master, w3, renders, h3) =
        chained-end (make_master uuid worker source directory digest watermark inspection) _ w2
          h2 in
      let (thumbnail, w4, shrinks, h4) =
        chained-end (make_thumbnail uuid worker source directory digest watermark inspection) _ w3
          h3 in
      record {
        content_type = content_type_of inspection;
        typed = content_type_of-HasType inspection;
        entered = w1;
        enters = enter_processing-IsEntered source (content_type_of inspection) digest w w1 enters;
        watermark = watermark;
        prepared = w2;
        prepares =
            prepare_watermark-IsMarked worker directory source.tenant_id revision w1 watermark w2
              prepares;
        preset_id = preset_of watermark;
        preset = preset_of-IsPreset watermark;
        master = master;
        rendered = w3;
        renders =
            make_master-IsMaster uuid worker source directory digest watermark inspection w2 master
              w3 renders;
        thumbnail = thumbnail;
        shrunk = w4;
        shrinks =
            make_thumbnail-IsThumbnail uuid worker source directory digest watermark inspection w3
              thumbnail w4 shrinks;
        publishes =
            last-end (λ e. transient (codes "DATABASE_UNAVAILABLE"))
              (at_time runtime.now_utc
                (repository.publish_derivatives source.upload_id (master ∷ thumbnail ∷ [])))
              w4 h4;
      }
