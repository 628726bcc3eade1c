-- ===== src/Worker/Watermarks.antt =====
-- apps/g7mb-worker/src/lib.rs: `prepare_watermark`, the copy of the registered watermark.
use g7mediabooster.Base.{
  ℕ, ◌+◌, Bool, ◌||◌, not, Option, none, some, ok_or, Bytes, codes, ◌++◌, eq_bytes, ltb, ◌==◌,
}
use g7mediabooster.Auth.{show, pos}
use g7mediabooster.Ports.Effects.{Effect, ◌>>=◌, ◌>>◌, done, lift, fail_if}
use g7mediabooster.Policies.{StoredWatermarkPolicy}
use g7mediabooster.Worker.{WatermarkPolicy, max_watermark_bytes, ProcessingFailure, operational}
use g7mediabooster.Worker.Parts.{Metadata, SourceValidationWorker}
use g7mediabooster.Worker.Derivatives.{or_else, join_path}

module _ {W : Type 0} (worker : SourceValidationWorker W) where
  open worker use {raw_store, policy_repository, files, policy}

  abbrev pub unavailable : {E A : Type 0} → Effect W E A → Effect W ProcessingFailure A
  unavailable = or_else (operational (codes "WATERMARK_ASSET_UNAVAILABLE"))

  -- `prepare_object_watermark`.
  unfoldable pub prepare_object_watermark :
      Bytes → ℕ → StoredWatermarkPolicy → Effect W ProcessingFailure WatermarkPolicy
  prepare_object_watermark job_directory revision stored = do
    downloaded ← unavailable (
        raw_store.download_to (record {
          key = stored.object_key;
          destination = join_path job_directory (codes "registered-watermark");
          expected_length = stored.byte_len;
          max_length = max_watermark_bytes;
        }))
    digest ←
        unavailable (files.sha256_file (join_path job_directory (codes "registered-watermark")))
    fail_if (not (eq_bytes digest stored.asset_sha256))
        (operational (codes "WATERMARK_DIGEST_MISMATCH"))
    done (record {
      asset_path = join_path job_directory (codes "registered-watermark");
      asset_sha256 = stored.asset_sha256;
      preset_revision = codes "g7-r" ++ show (pos revision);
      position = stored.position;
      margin_px = stored.margin_px;
      max_width_percent = stored.max_width_percent;
      opacity_percent = stored.opacity_percent;
    })

  -- The watermark of a pinned revision.
  abbrev pub pinned_watermark :
      Bytes → ℕ → Option StoredWatermarkPolicy → Effect W ProcessingFailure (Option WatermarkPolicy)
  unfolding prepare_object_watermark
  pinned_watermark job_directory revision none = done none
  pinned_watermark job_directory revision (some stored) = do
    prepared ← prepare_object_watermark job_directory revision stored
    done (some prepared)

  abbrev pub is_no_asset : Metadata → Bool
  is_no_asset m = not m.is_file || m.len == 0 || ltb max_watermark_bytes m.len

  -- The watermark that the operator configured.
  unfoldable pub configured_watermark :
      Bytes → WatermarkPolicy → Effect W ProcessingFailure WatermarkPolicy
  configured_watermark job_directory configured = do
    metadata ← unavailable (files.metadata configured.asset_path)
    fail_if (is_no_asset metadata) (operational (codes "WATERMARK_ASSET_INVALID"))
    copied ← unavailable (
        files.copy configured.asset_path (join_path job_directory (codes "registered-watermark"))
          (max_watermark_bytes + 1))
    fail_if (copied == 0 || ltb max_watermark_bytes copied)
        (operational (codes "WATERMARK_ASSET_INVALID"))
    digest ←
        unavailable (files.sha256_file (join_path job_directory (codes "registered-watermark")))
    fail_if (not (eq_bytes digest configured.asset_sha256))
        (operational (codes "WATERMARK_DIGEST_MISMATCH"))
    done (record configured { asset_path = join_path job_directory (codes "registered-watermark") })

  abbrev pub own_watermark :
      Bytes → Option WatermarkPolicy → Effect W ProcessingFailure (Option WatermarkPolicy)
  unfolding configured_watermark
  own_watermark job_directory none = done none
  own_watermark job_directory (some configured) = do
    prepared ← configured_watermark job_directory configured
    done (some prepared)

  -- `prepare_watermark`.
  unfoldable pub prepare_watermark :
      Bytes → Bytes → Option ℕ → Effect W ProcessingFailure (Option WatermarkPolicy)
  unfolding prepare_object_watermark configured_watermark
  prepare_watermark job_directory tenant_id none = own_watermark job_directory policy.watermark
  prepare_watermark job_directory tenant_id (some revision) = do
    found ←
        or_else (operational (codes "SITE_POLICY_UNAVAILABLE"))
          (policy_repository.find_site_policy_revision tenant_id revision)
    snapshot ← lift (ok_or found (operational (codes "SITE_POLICY_UNAVAILABLE")))
    fail_if (not (snapshot.revision == revision) || not (eq_bytes snapshot.tenant_id tenant_id))
        (operational (codes "SITE_POLICY_INVALID"))
    pinned_watermark job_directory revision snapshot.watermark
