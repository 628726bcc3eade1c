-- ===== src/Store/Policies.antt =====
-- `impl SitePolicyRepository for SqliteStore` of crates/g7mb-persistence-sqlite/src/lib.rs.
pub mod Log
use Prim.Native.String.{String}
use g7mediabooster.Base.{
  ℕ, ◌+◌, Bool, true, false, ◌&&◌, not, List, [], ◌∷◌, ◌++◌, Option, none, some, Result, ok, err,
  reject_if, ok_or, ◌>>=◌, ◌>>◌, Bytes, any, length, leb, ltb, ◌==◌, eq_bytes, within,
  if◌then◌else◌, try_i64, find_where,
}
use g7mediabooster.Domain.{UploadId}
use g7mediabooster.Ports.{OffsetDateTime, unix_timestamp, from_secs}
use g7mediabooster.Ports.Effects.{Effect}
use g7mediabooster.Policies.{
  PolicyAssetCandidate, StoredWatermarkPolicy, SitePolicySnapshot, PublishPolicyOutcome, published,
  unchanged, SitePolicyRepositoryError, revision_conflict, backend,
}
use g7mediabooster.Policies.Service.{SitePolicyRepository}
use g7mediabooster.Store.{UploadRow, PolicyRow, Store}
use g7mediabooster.Store.Confirmations.{upload_of, latest_revision}

-- `policy_asset_from_row`, on decoded values.
abbrev pub asset_of :
    Option UploadRow → Result SitePolicyRepositoryError (Option PolicyAssetCandidate)
asset_of none = ok none
asset_of (some u) = do
  byte_len ← ok_or u.actual_size_bytes (backend "stored policy asset has no confirmed length")
  ok (
      some (record {
        upload_id = u.id;
        object_key = u.object_key;
        declared_kind = u.declared_kind;
        state = u.state;
        byte_len = byte_len;
        detected_content_type = u.detected_content_type;
        source_sha256 = u.source_sha256;
      }))

unfoldable pub find_policy_asset :
    Store → Bytes → UploadId → Result SitePolicyRepositoryError (Option PolicyAssetCandidate)
find_policy_asset s tenant_id upload_id = asset_of (upload_of s tenant_id upload_id)

abbrev pub byte_len_of : Option StoredWatermarkPolicy → ℕ
byte_len_of none = 0
byte_len_of (some w) = w.byte_len

-- The `CHECK` on the columns of the watermark, and its foreign key.
abbrev pub is_storable : List UploadRow → Option StoredWatermarkPolicy → Bool
is_storable uploads none = true
is_storable uploads (some w) =
    within 1 16777216 w.byte_len
    && length w.asset_sha256 == 64
    && leb w.margin_px 1024
    && within 1 50 w.max_width_percent
    && within 1 100 w.opacity_percent
    && any (λ (u : UploadRow). u.id == w.asset_upload_id) uploads

-- What the table accepts.
unfoldable pub is_admissible : List UploadRow → PolicyRow → Bool
is_admissible uploads p =
    within 1 64 (length p.tenant_id)
    && ltb 0 p.revision
    && p.schema_version == 1
    && length p.settings_sha256 == 64
    && is_storable uploads p.watermark

abbrev pub policy_row : SitePolicySnapshot → ℕ → PolicyRow
policy_row snapshot created_at = record {
  tenant_id = snapshot.tenant_id;
  revision = snapshot.revision;
  schema_version = snapshot.schema_version;
  issued_at = unix_timestamp snapshot.issued_at;
  settings_sha256 = snapshot.settings_sha256;
  watermark = snapshot.watermark;
  created_at = created_at;
}

-- `COALESCE((SELECT MAX(revision) + 1 …), 1)`.
abbrev pub after_latest : Option ℕ → ℕ
after_latest none = 1
after_latest (some n) = n + 1

unfoldable pub next_revision : Bytes → List PolicyRow → ℕ
next_revision tenant_id policies = after_latest (latest_revision tenant_id policies)

-- `WHERE tenant_id = ? AND revision = ?`.
abbrev pub is_revision : Bytes → ℕ → PolicyRow → Bool
is_revision tenant_id revision p = eq_bytes p.tenant_id tenant_id && p.revision == revision

-- `existing.as_deref() == Some(settings_sha256)`.
abbrev pub replayed :
    Store
    → SitePolicySnapshot
    → Option PolicyRow
    → Result SitePolicyRepositoryError (PublishPolicyOutcome × Store)
replayed s snapshot none = err revision_conflict
replayed s snapshot (some p) =
    if eq_bytes p.settings_sha256 snapshot.settings_sha256
    then ok (unchanged, s)
    else err revision_conflict

unfoldable pub publish_site_policy :
    Store → SitePolicySnapshot → ℕ → Result SitePolicyRepositoryError (PublishPolicyOutcome × Store)
unfolding next_revision is_admissible
publish_site_policy s snapshot created_at = do
  revision ← ok_or (try_i64 snapshot.revision) revision_conflict
  byte_len ←
      ok_or (try_i64 (byte_len_of snapshot.watermark))
        (backend "watermark length exceeds SQLite range")
  if revision == next_revision snapshot.tenant_id s.policies
      then (if is_admissible s.uploads (policy_row snapshot created_at)
          then ok
              (published, record s { policies = s.policies ++ policy_row snapshot created_at ∷ [] })
          else err (backend "constraint failed"))
      else replayed s snapshot (find_where (is_revision snapshot.tenant_id revision) s.policies)

-- `site_policy_from_row`, on decoded values.
abbrev pub snapshot_of : PolicyRow → SitePolicySnapshot
snapshot_of p = record {
  tenant_id = p.tenant_id;
  schema_version = p.schema_version;
  revision = p.revision;
  issued_at = from_secs p.issued_at;
  settings_sha256 = p.settings_sha256;
  watermark = p.watermark;
}

abbrev pub snapshot_of_row : Option PolicyRow → Option SitePolicySnapshot
snapshot_of_row none = none
snapshot_of_row (some p) = some (snapshot_of p)

unfoldable pub find_site_policy_revision :
    Store → Bytes → ℕ → Result SitePolicyRepositoryError (Option SitePolicySnapshot)
find_site_policy_revision s tenant_id revision = do
  revision ← ok_or (try_i64 revision) revision_conflict
  ok (snapshot_of_row (find_where (is_revision tenant_id revision) s.policies))

-- `ORDER BY revision DESC LIMIT 1`.
abbrev pub active_row : Store → Bytes → Option ℕ → Option PolicyRow
active_row s tenant_id none = none
active_row s tenant_id (some revision) = find_where (is_revision tenant_id revision) s.policies

unfoldable pub find_active_site_policy : Store → Bytes → Option SitePolicySnapshot
find_active_site_policy s tenant_id =
    snapshot_of_row (active_row s tenant_id (latest_revision tenant_id s.policies))

-- A result that keeps the store on an error: the statement had no effect.
abbrev pub kept_on_error :
    {A : Type 0}
    → Store
    → Result SitePolicyRepositoryError (A × Store)
    → Result SitePolicyRepositoryError A × Store
kept_on_error s (ok (a, t)) = (ok a, t)
kept_on_error s (err e) = (err e, s)

-- The port of the service, on the store at a time of the clock.
abbrev pub site_policy_repository : ℕ → SitePolicyRepository Store
site_policy_repository created_at = record {
  find_policy_asset = λ tenant_id upload_id s. (find_policy_asset s tenant_id upload_id, s);
  publish_site_policy = λ snapshot s. kept_on_error s (publish_site_policy s snapshot created_at);
  find_active_site_policy = λ tenant_id s. (ok (find_active_site_policy s tenant_id), s);
  find_site_policy_revision =
      λ tenant_id revision s. (find_site_policy_revision s tenant_id revision, s);
}
