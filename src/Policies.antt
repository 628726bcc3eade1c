-- ===== src/Policies.antt =====
-- crates/g7mb-application/src/policies.rs: site policies, the watermark settings that a tenant's
-- host publishes as numbered revisions. SHA-256 is a parameter.
pub mod Settings
pub mod Service
use g7mediabooster.Base.{
  ℕ, zero, suc, ◌+◌, ◌-◌, ◌*◌, ◌/◌, ◌%◌, ◌^◌, Bool, true, false, ◌&&◌, ◌||◌, not, List, [], ◌∷◌,
  ◌++◌, Option, none, some, Result, ok, err, reject_if, ok_or, ◌>>=◌, ◌>>◌, Bytes, codes, eq_bytes,
  all, length, is_empty, ltb, leb, ◌==◌, within, if◌then◌else◌, identifier_byte, lower_hex_byte,
  i64_max,
}
use g7mediabooster.Domain.{UploadId, MediaKind, is_video, UploadState, ready, eq_state}
use g7mediabooster.Domain.Keys.{ObjectKey}
use g7mediabooster.Ports.{OffsetDateTime, unix_timestamp}
use Prim.Native.String.{String}

abbrev pub site_policy_schema_version : ℕ
site_policy_schema_version = 1

abbrev pub max_watermark_asset_bytes : ℕ
max_watermark_asset_bytes = 16 * 1024 * 1024

pub data WatermarkPosition : Type 0 where
  center top_left top_right bottom_left bottom_right : WatermarkPosition

pub record RequestedWatermarkPolicy : Type 0 where
  pub asset_upload_id : UploadId
  pub position : WatermarkPosition
  pub margin_px : ℕ
  pub max_width_percent : ℕ
  pub opacity_percent : ℕ

pub record PublishSitePolicy : Type 0 where
  pub tenant_id : Bytes
  pub schema_version : ℕ
  pub revision : ℕ
  pub issued_at : OffsetDateTime
  pub watermark : Option RequestedWatermarkPolicy

pub record PolicyAssetCandidate : Type 0 where
  pub upload_id : UploadId
  pub object_key : ObjectKey
  pub declared_kind : MediaKind
  pub state : UploadState
  pub byte_len : ℕ
  pub detected_content_type : Option Bytes
  pub source_sha256 : Option Bytes

pub record StoredWatermarkPolicy : Type 0 where
  pub asset_upload_id : UploadId
  pub object_key : ObjectKey
  pub byte_len : ℕ
  pub asset_sha256 : Bytes
  pub position : WatermarkPosition
  pub margin_px : ℕ
  pub max_width_percent : ℕ
  pub opacity_percent : ℕ

pub record SitePolicySnapshot : Type 0 where
  pub tenant_id : Bytes
  pub schema_version : ℕ
  pub revision : ℕ
  pub issued_at : OffsetDateTime
  pub settings_sha256 : Bytes
  pub watermark : Option StoredWatermarkPolicy

pub data PublishPolicyOutcome : Type 0 where
  published unchanged : PublishPolicyOutcome

pub data SitePolicyRepositoryError : Type 0 where
  revision_conflict : SitePolicyRepositoryError
  backend : String → SitePolicyRepositoryError

pub data PublishSitePolicyError : Type 0 where
  invalid_tenant invalid_policy asset_not_found asset_rejected : PublishSitePolicyError
  revision_conflict repository : PublishSitePolicyError

-- `From<SitePolicyRepositoryError>`.
abbrev pub from_repository : SitePolicyRepositoryError → PublishSitePolicyError
from_repository SitePolicyRepositoryError.revision_conflict =
    PublishSitePolicyError.revision_conflict
from_repository (backend text) = repository

unfoldable pub tenant_is_valid : Bytes → Bool
tenant_is_valid tenant_id =
    not (is_empty tenant_id) && leb (length tenant_id) 64 && all identifier_byte tenant_id

abbrev pub is_lower_sha256 : Bytes → Bool
is_lower_sha256 value = length value == 64 && all lower_hex_byte value

unfoldable pub validate_snapshot_envelope :
    PublishSitePolicy → OffsetDateTime → ℕ → Result PublishSitePolicyError (Unit {0})
validate_snapshot_envelope request now max_skew_seconds =
    let skew : ℕ =
      (unix_timestamp now - unix_timestamp request.issued_at)
      + (unix_timestamp request.issued_at - unix_timestamp now) in
    reject_if
      (not (tenant_is_valid request.tenant_id)
        || not (request.schema_version == site_policy_schema_version)
        || request.revision == 0
        || ltb i64_max request.revision
        || ltb max_skew_seconds skew)
      (if tenant_is_valid request.tenant_id then invalid_policy else invalid_tenant)

unfoldable pub validate_watermark_settings :
    RequestedWatermarkPolicy → Result PublishSitePolicyError (Unit {0})
validate_watermark_settings watermark =
    reject_if
      (ltb 1024 watermark.margin_px
        || not (within 1 50 watermark.max_width_percent)
        || not (within 1 100 watermark.opacity_percent))
      invalid_policy

-- `candidate.source_sha256.filter(…)`.
abbrev pub digest_of : Option Bytes → Option Bytes
digest_of none = none
digest_of (some value) = if is_lower_sha256 value then some value else none

abbrev pub is_image_type : Bytes → Bool
is_image_type t =
    eq_bytes t (codes "image/jpeg")
    || eq_bytes t (codes "image/png")
    || eq_bytes t (codes "image/webp")

unfoldable pub validate_asset :
    PolicyAssetCandidate
    → RequestedWatermarkPolicy
    → Result PublishSitePolicyError StoredWatermarkPolicy
validate_asset candidate requested = do
  digest ← ok_or (digest_of candidate.source_sha256) asset_rejected
  content_type ← ok_or candidate.detected_content_type asset_rejected
  reject_if
      (not (candidate.upload_id == requested.asset_upload_id)
        || is_video candidate.declared_kind
        || not (eq_state candidate.state ready)
        || candidate.byte_len == 0
        || ltb max_watermark_asset_bytes candidate.byte_len
        || not (is_image_type content_type))
      asset_rejected
  ok (record {
    asset_upload_id = candidate.upload_id;
    object_key = candidate.object_key;
    byte_len = candidate.byte_len;
    asset_sha256 = digest;
    position = requested.position;
    margin_px = requested.margin_px;
    max_width_percent = requested.max_width_percent;
    opacity_percent = requested.opacity_percent;
  })

abbrev pub watermark_position_name : WatermarkPosition → Bytes
watermark_position_name center = codes "center"
watermark_position_name top_left = codes "top-left"
watermark_position_name top_right = codes "top-right"
watermark_position_name bottom_left = codes "bottom-left"
watermark_position_name bottom_right = codes "bottom-right"

-- `to_be_bytes` of an integer of so many bytes.
unfoldable pub to_be_bytes : ℕ → ℕ → Bytes
to_be_bytes zero n = []
to_be_bytes (suc k) n = to_be_bytes k (n / 256) ++ (n % 256) ∷ []

-- The bytes `\0`.
abbrev pub nul : Bytes
nul = 0 ∷ []

-- What `normalized_settings_sha256` feeds to the hasher.
unfoldable pub normalized_settings : Option StoredWatermarkPolicy → Bytes
unfolding to_be_bytes
normalized_settings none =
    codes "g7mb-site-policy-settings-v1"
    ++ (nul ++ (codes "watermark" ++ (nul ++ (codes "disabled" ++ nul))))
normalized_settings (some w) =
    codes "g7mb-site-policy-settings-v1"
    ++ (nul
        ++ (codes "watermark"
            ++ (nul
                ++ (codes "enabled"
                    ++ (nul
                        ++ (to_be_bytes 16 w.asset_upload_id
                            ++ (nul
                                ++ (w.object_key.value
                                    ++ (nul
                                        ++ (to_be_bytes 8 w.byte_len
                                            ++ (w.asset_sha256
                                                ++ (watermark_position_name w.position
                                                    ++ (to_be_bytes 4 w.margin_px
                                                        ++ (w.max_width_percent ∷ w.opacity_percent
                                                            ∷ []))))))))))))))

-- SHA-256 in lowercase hexadecimal digits is an argument.
unfoldable pub normalized_settings_sha256 : (Bytes → Bytes) → Option StoredWatermarkPolicy → Bytes
unfolding normalized_settings
normalized_settings_sha256 sha256_hex watermark = sha256_hex (normalized_settings watermark)
