-- ===== src/Delivery.antt =====
-- crates/g7mb-application/src/delivery.rs: `DerivativeDeliveryService`, which signs the URL of a
-- derivative for a tenant that owns it. The cache of manifests is a parameter.
pub mod Redirects
pub mod Manifests
pub mod Authorities
pub mod Authorized
use g7mediabooster.Base.{
  ℕ, Bool, true, false, ◌&&◌, ◌||◌, not, ◌==◌, List, [], ◌∷◌, Option, none, some, Result, ok, err,
  ok_or, Bytes, codes, eq_bytes, if◌then◌else◌,
}
use g7mediabooster.Domain.{UploadId}
use g7mediabooster.Domain.Keys.{ObjectKey}
use g7mediabooster.Ports.{
  OffsetDateTime, Duration, PresignedDownload, ObjectStore, ObjectStoreError,
}
use g7mediabooster.Ports.Effects.{Effect, ◌>>=◌, ◌>>◌, done, fail, lift, fail_if, map_failure}
use g7mediabooster.Uploads.{
  StoredDerivative, UploadRepository, UploadRepositoryError, backend, UploadStatusSnapshot,
}
use g7mediabooster.Delivery.Redirects.{
  DerivativeDeliveryPolicy, policy_is_valid, UrlParser, valid_preset, valid_tenant,
  trusted_redirect,
}
use g7mediabooster.Delivery.Manifests.{
  DerivativeManifest, ManifestLoadError, repository_failed, from_status, derivative_of,
}

pub record DerivativeDelivery : Type 0 where
  pub preset_id : Bytes
  pub variant : Bytes
  pub content_type : Bytes
  pub byte_len : ℕ
  pub url : Bytes
  pub expires_at : OffsetDateTime

pub data DerivativeDeliveryError : Type 0 where
  invalid_policy invalid_tenant invalid_variant not_found not_ready : DerivativeDeliveryError
  untrusted_redirect : DerivativeDeliveryError
  repository : UploadRepositoryError → DerivativeDeliveryError
  object_store : ObjectStoreError → DerivativeDeliveryError

pub record ManifestKey : Type 0 where
  pub tenant_id : Bytes
  pub upload_id : UploadId

-- The cache of the moka crate: `try_get_with` answers with the cached value of a key, or runs the
-- loader and keeps what it returns.
pub record ManifestCache (W : Type 0) : Type 0 where
  pub get : ManifestKey → W → Option DerivativeManifest × W
  pub try_get_with :
      ManifestKey
      → Effect W ManifestLoadError DerivativeManifest
      → Effect W ManifestLoadError DerivativeManifest
  pub invalidate : ManifestKey → W → W

pub record DerivativeDeliveryService (W : Type 0) : Type 0 where
  pub repository : UploadRepository W
  pub derivative_store : ObjectStore W
  pub policy : DerivativeDeliveryPolicy
  pub manifests : ManifestCache W
  pub urls : UrlParser

-- `map_manifest_load_error`.
abbrev pub map_manifest_load_error : ManifestLoadError → DerivativeDeliveryError
map_manifest_load_error ManifestLoadError.not_found = DerivativeDeliveryError.not_found
map_manifest_load_error ManifestLoadError.not_ready = DerivativeDeliveryError.not_ready
map_manifest_load_error repository_failed =
    DerivativeDeliveryError.repository (backend "delivery manifest lookup failed")

abbrev pub is_variant : Bytes → Bool
is_variant v = eq_bytes v (codes "master") || eq_bytes v (codes "thumbnail")

-- `preset_id.is_some_and(|expected| derivative.preset_id != expected)`.
abbrev pub is_other_preset : Option Bytes → StoredDerivative → Bool
is_other_preset none d = false
is_other_preset (some expected) d = not (eq_bytes d.preset_id expected)

abbrev pub delivery_of : StoredDerivative → PresignedDownload → DerivativeDelivery
delivery_of d signed = record {
  preset_id = d.preset_id;
  variant = d.variant;
  content_type = d.content_type;
  byte_len = d.byte_len;
  url = signed.url;
  expires_at = signed.expires_at;
}

module _ {W : Type 0} (service : DerivativeDeliveryService W) where
  open service use {derivative_store, policy, manifests, urls}

  -- `DerivativeDeliveryService::new`, whose cache is the argument's.
  unfoldable pub new_service : Result DerivativeDeliveryError (DerivativeDeliveryService W)
  unfolding policy_is_valid
  new_service =
      if policy_is_valid policy then ok service else err DerivativeDeliveryError.invalid_policy

  -- `invalidate_upload`.
  unfoldable pub invalidate_upload : Bytes → UploadId → W → W
  invalidate_upload tenant_id upload_id =
      manifests.invalidate (record { tenant_id = tenant_id; upload_id = upload_id })

  -- `load_manifest`.
  unfoldable pub load_manifest : ManifestKey → Effect W ManifestLoadError DerivativeManifest
  unfolding from_status
  load_manifest key = do
    found ←
        map_failure (λ (e : UploadRepositoryError). repository_failed)
          (service.repository.find_status key.tenant_id key.upload_id)
    status ← lift (ok_or found ManifestLoadError.not_found)
    fail_if (not (status.upload_id == key.upload_id)) ManifestLoadError.not_ready
    lift (from_status status)

  -- The cached manifest, or the loaded one.
  abbrev pub found_or_loaded :
      ManifestKey → Option DerivativeManifest × W → Result ManifestLoadError DerivativeManifest × W
  found_or_loaded key (some manifest, w) = (ok manifest, w)
  found_or_loaded key (none, w) = manifests.try_get_with key (load_manifest key) w

  unfoldable pub manifest_of : ManifestKey → Effect W DerivativeDeliveryError DerivativeManifest
  manifest_of key =
      map_failure map_manifest_load_error (λ w. found_or_loaded key (manifests.get key w))

  -- The `match` on `is_delivery_allowed`: a refusal drops the manifest.
  abbrev pub refuse :
      ManifestKey → DerivativeDeliveryError → Effect W DerivativeDeliveryError (Unit {0})
  refuse key error w = (err error, manifests.invalidate key w)

  unfoldable pub allowed : ManifestKey → Option Bool → Effect W DerivativeDeliveryError (Unit {0})
  allowed key (some true) = done tt
  allowed key (some false) = refuse key DerivativeDeliveryError.not_ready
  allowed key none = refuse key DerivativeDeliveryError.not_found

  -- The signature of the derivative that was found.
  unfoldable pub sign_derivative :
      StoredDerivative → Effect W DerivativeDeliveryError DerivativeDelivery
  unfolding trusted_redirect
  sign_derivative d = do
    signed ← map_failure DerivativeDeliveryError.object_store (
        derivative_store.presign_get
          (record { key = d.object_key; expires_in = policy.signed_url_ttl }))
    fail_if (not (trusted_redirect urls signed.url policy.redirect_allowed_authorities))
        untrusted_redirect
    done (delivery_of d signed)

  -- `presign_inner` on valid names.
  unfoldable pub presign_valid :
      ManifestKey → Option Bytes → Bytes → Effect W DerivativeDeliveryError DerivativeDelivery
  unfolding manifest_of allowed sign_derivative derivative_of
  presign_valid key preset_id variant = do
    manifest ← manifest_of key
    answer ←
        map_failure DerivativeDeliveryError.repository
          (service.repository.is_delivery_allowed key.tenant_id key.upload_id)
    allowed key answer
    d ← lift (ok_or (derivative_of manifest variant) DerivativeDeliveryError.not_found)
    fail_if (is_other_preset preset_id d) DerivativeDeliveryError.not_found
    sign_derivative d

  unfoldable pub presign_inner :
      Bytes → UploadId → Option Bytes → Bytes → Effect W DerivativeDeliveryError DerivativeDelivery
  unfolding presign_valid valid_tenant
  presign_inner tenant_id upload_id preset_id variant = do
    fail_if (not (valid_tenant tenant_id)) invalid_tenant
    fail_if (not (is_variant variant)) invalid_variant
    presign_valid (record { tenant_id = tenant_id; upload_id = upload_id }) preset_id variant

  unfoldable pub presign :
      Bytes → UploadId → Bytes → Effect W DerivativeDeliveryError DerivativeDelivery
  unfolding presign_inner
  presign tenant_id upload_id variant = presign_inner tenant_id upload_id none variant

  unfoldable pub presign_exact :
      Bytes → UploadId → Bytes → Bytes → Effect W DerivativeDeliveryError DerivativeDelivery
  unfolding presign_inner valid_preset
  presign_exact tenant_id upload_id preset_id variant = do
    fail_if (not (valid_preset preset_id)) invalid_variant
    presign_inner tenant_id upload_id (some preset_id) variant
