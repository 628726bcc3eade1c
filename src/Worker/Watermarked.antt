-- ===== src/Worker/Watermarked.antt =====
-- What a worker did to prepare a watermark.
use g7mediabooster.Base.{
  ℕ, ◌+◌, ◌≤◌, ◌≡◌, refl, sym, true, not, ◌||◌, ◌++◌, Option, none, some, ok, ok_or, Bytes, codes,
  eq_bytes, eq_bytes_eq, ltb, ◌==◌, arith,
}
use g7mediabooster.Auth.{show, pos}
use g7mediabooster.Ports.{ObjectMetadata}
use g7mediabooster.Ports.Chains.{Ran}
use g7mediabooster.Ports.Ends.{called-end, chained-end, lifted-end, passed-end, ended, same_end}
use g7mediabooster.Policies.{StoredWatermarkPolicy, SitePolicySnapshot}
use g7mediabooster.Worker.{WatermarkPolicy, max_watermark_bytes, ProcessingFailure, operational}
use g7mediabooster.Worker.Parts.{Metadata, SourceValidationWorker}
use g7mediabooster.Worker.Derivatives.{join_path}
use g7mediabooster.Worker.Watermarks.{
  is_no_asset, prepare_object_watermark, pinned_watermark, configured_watermark, own_watermark,
  prepare_watermark,
}

pub found_some :
    {A : Type 0} (found : Option A) (e : ProcessingFailure) {a : A}
    → ok_or found e ≡ ok a
    → found ≡ some a
found_some none e h = cc
found_some (some b) e h = cc

module _ {W : Type 0} (worker : SourceValidationWorker W) where
  open worker use {raw_store, policy_repository, files, policy}

  -- Where the asset lies in the directory of the job.
  abbrev pub asset_in : Bytes → Bytes
  asset_in directory = join_path directory (codes "registered-watermark")

  -- The asset of a site policy was downloaded with its length, within the limit, and has its digest.
  abbrev pub IsDownloadedMark : Bytes → ℕ → StoredWatermarkPolicy → W → WatermarkPolicy → W → Type 0
  IsDownloadedMark directory revision stored w mark v =
      (metadata : ObjectMetadata) × (local : W) × Ran
        (raw_store.download_to (record {
          key = stored.object_key;
          destination = asset_in directory;
          expected_length = stored.byte_len;
          max_length = max_watermark_bytes;
        }))
        w metadata local
      × Ran (files.sha256_file (asset_in directory)) local stored.asset_sha256 v
      × (mark ≡ record {
        asset_path = asset_in directory;
        asset_sha256 = stored.asset_sha256;
        preset_revision = codes "g7-r" ++ show (pos revision);
        position = stored.position;
        margin_px = stored.margin_px;
        max_width_percent = stored.max_width_percent;
        opacity_percent = stored.opacity_percent;
      })

  -- The asset of the operator is a file within the limit, was copied, and has its digest.
  abbrev pub IsCopiedMark : Bytes → WatermarkPolicy → W → WatermarkPolicy → W → Type 0
  IsCopiedMark directory configured w mark v =
      (metadata : Metadata) × (measured : W) × Ran (files.metadata configured.asset_path) w metadata
        measured
      × (metadata.is_file ≡ true)
      × (1 ≤ metadata.len)
      × (metadata.len ≤ max_watermark_bytes)
      × ((copied : ℕ) × (local : W) × Ran
            (files.copy configured.asset_path (asset_in directory) (max_watermark_bytes + 1))
            measured copied local
          × (1 ≤ copied)
          × (copied ≤ max_watermark_bytes)
          × Ran (files.sha256_file (asset_in directory)) local configured.asset_sha256 v
          × (mark ≡ record configured { asset_path = asset_in directory }))

  abbrev pub IsPinnedMark :
      Bytes → ℕ → Option StoredWatermarkPolicy → W → Option WatermarkPolicy → W → Type 0
  IsPinnedMark directory revision none w mark v = (mark ≡ none) × (v ≡ w)
  IsPinnedMark directory revision (some stored) w mark v =
      (m : WatermarkPolicy) × (mark ≡ some m) × IsDownloadedMark directory revision stored w m v

  abbrev pub IsOwnMark : Bytes → Option WatermarkPolicy → W → Option WatermarkPolicy → W → Type 0
  IsOwnMark directory none w mark v = (mark ≡ none) × (v ≡ w)
  IsOwnMark directory (some configured) w mark v =
      (m : WatermarkPolicy) × (mark ≡ some m) × IsCopiedMark directory configured w m v

  -- The watermark of the pinned revision of the tenant's site policy, or else the operator's.
  abbrev pub IsMarked : Bytes → Bytes → Option ℕ → W → Option WatermarkPolicy → W → Type 0
  IsMarked directory tenant_id none w mark v = IsOwnMark directory policy.watermark w mark v
  IsMarked directory tenant_id (some revision) w mark v =
      (snapshot : SitePolicySnapshot) × (read : W) × Ran
        (policy_repository.find_site_policy_revision tenant_id revision) w (some snapshot) read
      × (snapshot.revision ≡ revision)
      × (snapshot.tenant_id ≡ tenant_id)
      × IsPinnedMark directory revision snapshot.watermark read mark v

  prepare_object_watermark-IsDownloadedMark :
      (directory : Bytes) (revision : ℕ) (stored : StoredWatermarkPolicy) (w : W)
      (mark : WatermarkPolicy) (v : W)
      → Ran (prepare_object_watermark worker directory revision stored) w mark v
      → IsDownloadedMark directory revision stored w mark v
  unfolding prepare_object_watermark
  prepare_object_watermark-IsDownloadedMark directory revision stored w mark v h =
      let unavailable : ProcessingFailure = operational (codes "WATERMARK_ASSET_UNAVAILABLE") in
      let (metadata, w1, downloads, h1) =
        called-end (λ e. unavailable)
          (raw_store.download_to (record {
            key = stored.object_key;
            destination = asset_in directory;
            expected_length = stored.byte_len;
            max_length = max_watermark_bytes;
          }))
          _ w h in
      let (digest, w2, hashes, h2) =
        called-end (λ e. unavailable) (files.sha256_file (asset_in directory)) _ w1 h1 in
      let (same, h3) =
        passed-end (not (eq_bytes digest stored.asset_sha256))
          (operational (codes "WATERMARK_DIGEST_MISMATCH")) _ w2 h2 in
      let (made, there) = ended h3 in
      (
        metadata,
        w1,
        downloads,
        same_end hashes (eq_bytes_eq digest stored.asset_sha256 (ground (arith, same))) there,
        sym made,
      )

  configured_watermark-IsCopiedMark :
      (directory : Bytes) (configured : WatermarkPolicy) (w : W) (mark : WatermarkPolicy) (v : W)
      → Ran (configured_watermark worker directory configured) w mark v
      → IsCopiedMark directory configured w mark v
  unfolding configured_watermark
  configured_watermark-IsCopiedMark directory configured w mark v h =
      let unavailable : ProcessingFailure = operational (codes "WATERMARK_ASSET_UNAVAILABLE") in
      let invalid : ProcessingFailure = operational (codes "WATERMARK_ASSET_INVALID") in
      let (metadata, w1, measures, h1) =
        called-end (λ e. unavailable) (files.metadata configured.asset_path) _ w h in
      let (asset, h2) = passed-end (is_no_asset worker metadata) invalid _ w1 h1 in
      let (copied, w2, copies, h3) =
        called-end (λ e. unavailable)
          (files.copy configured.asset_path (asset_in directory) (max_watermark_bytes + 1)) _ w1
          h2 in
      let (whole, h4) =
        passed-end (copied == 0 || ltb max_watermark_bytes copied) invalid _ w2 h3 in
      let (digest, w3, hashes, h5) =
        called-end (λ e. unavailable) (files.sha256_file (asset_in directory)) _ w2 h4 in
      let (same, h6) =
        passed-end (not (eq_bytes digest configured.asset_sha256))
          (operational (codes "WATERMARK_DIGEST_MISMATCH")) _ w3 h5 in
      let (made, there) = ended h6 in
      (
        metadata,
        w1,
        measures,
        ground (arith, asset),
        ground (arith, asset),
        ground (arith, asset),
        (
          copied,
          w2,
          copies,
          ground (arith, whole),
          ground (arith, whole),
          same_end hashes (eq_bytes_eq digest configured.asset_sha256 (ground (arith, same))) there,
          sym made,
        ),
      )

  pinned_watermark-IsPinnedMark :
      (directory : Bytes) (revision : ℕ) (o : Option StoredWatermarkPolicy) (w : W)
      (mark : Option WatermarkPolicy) (v : W)
      → Ran (pinned_watermark worker directory revision o) w mark v
      → IsPinnedMark directory revision o w mark v
  unfolding prepare_object_watermark
  pinned_watermark-IsPinnedMark directory revision none w mark v h =
      let (made, there) = ended h in (sym made, sym there)
  pinned_watermark-IsPinnedMark directory revision (some stored) w mark v h =
      let (m, u, prepares, h1) =
        chained-end (prepare_object_watermark worker directory revision stored) _ w h in
      let (made, there) = ended h1 in
      (
        m,
        sym made,
        prepare_object_watermark-IsDownloadedMark directory revision stored w m v
            (same_end prepares refl there),
      )

  own_watermark-IsOwnMark :
      (directory : Bytes) (o : Option WatermarkPolicy) (w : W) (mark : Option WatermarkPolicy)
      (v : W)
      → Ran (own_watermark worker directory o) w mark v
      → IsOwnMark directory o w mark v
  unfolding configured_watermark
  own_watermark-IsOwnMark directory none w mark v h =
      let (made, there) = ended h in (sym made, sym there)
  own_watermark-IsOwnMark directory (some configured) w mark v h =
      let (m, u, prepares, h1) =
        chained-end (configured_watermark worker directory configured) _ w h in
      let (made, there) = ended h1 in
      (
        m,
        sym made,
        configured_watermark-IsCopiedMark directory configured w m v (same_end prepares refl there),
      )

  pub prepare_watermark-IsMarked :
      (directory tenant_id : Bytes) (revision : Option ℕ) (w : W) (mark : Option WatermarkPolicy)
      (v : W)
      → Ran (prepare_watermark worker directory tenant_id revision) w mark v
      → IsMarked directory tenant_id revision w mark v
  unfolding prepare_watermark
  prepare_watermark-IsMarked directory tenant_id none w mark v h =
      own_watermark-IsOwnMark directory policy.watermark w mark v h
  prepare_watermark-IsMarked directory tenant_id (some revision) w mark v h =
      let unavailable : ProcessingFailure = operational (codes "SITE_POLICY_UNAVAILABLE") in
      let (found, w1, reads, h1) =
        called-end (λ e. unavailable)
          (policy_repository.find_site_policy_revision tenant_id revision) _ w h in
      let (snapshot, there, h2) = lifted-end (ok_or found unavailable) _ w1 h1 in
      let (same, h3) =
        passed-end
          (not (snapshot.revision == revision) || not (eq_bytes snapshot.tenant_id tenant_id))
          (operational (codes "SITE_POLICY_INVALID")) _ w1 h2 in
      (
        snapshot,
        w1,
        same_end reads (found_some found unavailable there) refl,
        ground (arith, same),
        eq_bytes_eq snapshot.tenant_id tenant_id (ground (arith, same)),
        pinned_watermark-IsPinnedMark directory revision snapshot.watermark w1 mark v h3,
      )
