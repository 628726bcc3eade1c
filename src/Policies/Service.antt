-- ===== src/Policies/Service.antt =====
-- crates/g7mb-application/src/policies.rs: `SitePolicyService`.
use g7mediabooster.Base.{ℕ, not, Option, none, some, Bytes, ok_or}
use g7mediabooster.Domain.{UploadId}
use g7mediabooster.Ports.{OffsetDateTime}
use g7mediabooster.Ports.Effects.{Effect, ◌>>=◌, ◌>>◌, done, lift, fail_if, map_failure}
use g7mediabooster.Policies.{
  RequestedWatermarkPolicy, PublishSitePolicy, PolicyAssetCandidate, StoredWatermarkPolicy,
  SitePolicySnapshot, PublishPolicyOutcome, SitePolicyRepositoryError, PublishSitePolicyError,
  invalid_tenant, asset_not_found, from_repository, tenant_is_valid, validate_snapshot_envelope,
  validate_watermark_settings, validate_asset, normalized_settings_sha256,
}

pub record SitePolicyRepository (W : Type 0) : Type 0 where
  pub find_policy_asset :
      Bytes → UploadId → Effect W SitePolicyRepositoryError (Option PolicyAssetCandidate)
  pub publish_site_policy :
      SitePolicySnapshot → Effect W SitePolicyRepositoryError PublishPolicyOutcome
  pub find_active_site_policy :
      Bytes → Effect W SitePolicyRepositoryError (Option SitePolicySnapshot)
  pub find_site_policy_revision :
      Bytes → ℕ → Effect W SitePolicyRepositoryError (Option SitePolicySnapshot)

pub record SitePolicyService (W : Type 0) : Type 0 where
  pub repository : SitePolicyRepository W
  pub max_issued_at_skew_seconds : ℕ
  pub sha256_hex : Bytes → Bytes

module _ {W : Type 0} (service : SitePolicyService W) where
  open service use {repository, max_issued_at_skew_seconds, sha256_hex}

  -- The `match request.watermark` of `publish`.
  unfoldable pub pinned :
      Bytes
      → Option RequestedWatermarkPolicy
      → Effect W PublishSitePolicyError (Option StoredWatermarkPolicy)
  unfolding validate_watermark_settings validate_asset
  pinned tenant_id none = done none
  pinned tenant_id (some requested) = do
    lift (validate_watermark_settings requested)
    found ←
        map_failure from_repository
          (repository.find_policy_asset tenant_id requested.asset_upload_id)
    candidate ← lift (ok_or found asset_not_found)
    stored ← lift (validate_asset candidate requested)
    done (some stored)

  abbrev pub snapshot_of : PublishSitePolicy → Option StoredWatermarkPolicy → SitePolicySnapshot
  snapshot_of request watermark = record {
    tenant_id = request.tenant_id;
    schema_version = request.schema_version;
    revision = request.revision;
    issued_at = request.issued_at;
    settings_sha256 = normalized_settings_sha256 sha256_hex watermark;
    watermark = watermark;
  }

  unfoldable pub publish :
      PublishSitePolicy
      → OffsetDateTime
      → Effect W PublishSitePolicyError (SitePolicySnapshot × PublishPolicyOutcome)
  unfolding validate_snapshot_envelope pinned
  publish request now = do
    lift (validate_snapshot_envelope request now max_issued_at_skew_seconds)
    watermark ← pinned request.tenant_id request.watermark
    outcome ←
        map_failure from_repository (repository.publish_site_policy (snapshot_of request watermark))
    done (snapshot_of request watermark, outcome)

  unfoldable pub active : Bytes → Effect W PublishSitePolicyError (Option SitePolicySnapshot)
  active tenant_id = do
    fail_if (not (tenant_is_valid tenant_id)) invalid_tenant
    map_failure from_repository (repository.find_active_site_policy tenant_id)
