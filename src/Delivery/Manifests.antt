-- ===== src/Delivery/Manifests.antt =====
-- crates/g7mb-application/src/delivery.rs: the manifest of an upload, its two derivatives.
use g7mediabooster.Base.{
  Bool, ◌&&◌, ◌||◌, not, List, [], ◌∷◌, Option, Result, ok, reject_if, ◌>>◌, Bytes, codes, eq_bytes,
  all, length, is_empty, ltb, leb, ◌==◌, if◌then◌else◌, identifier_byte, count_where, find_where,
}
use g7mediabooster.Domain.{ready, eq_state}
use g7mediabooster.Uploads.{StoredDerivative, UploadStatusSnapshot}

pub record DerivativeManifest : Type 0 where
  pub derivatives : List StoredDerivative

pub data ManifestLoadError : Type 0 where
  not_found not_ready repository_failed : ManifestLoadError

abbrev pub has_variant : Bytes → StoredDerivative → Bool
has_variant variant d = eq_bytes d.variant variant

-- The content type that a variant may have.
abbrev pub has_type : StoredDerivative → Bool
has_type d =
    if has_variant (codes "master") d
    then eq_bytes d.content_type (codes "image/jpeg")
      || eq_bytes d.content_type (codes "video/mp4")
      || eq_bytes d.content_type (codes "video/quicktime")
    else has_variant (codes "thumbnail") d && eq_bytes d.content_type (codes "image/jpeg")

-- The preset of the first derivative.
abbrev pub first_preset : List StoredDerivative → Bytes
first_preset [] = []
first_preset (d ∷ ds) = d.preset_id

abbrev pub is_sound : Bytes → StoredDerivative → Bool
is_sound preset d =
    ltb 0 d.byte_len
    && not (is_empty d.preset_id)
    && leb (length d.preset_id) 128
    && all identifier_byte d.preset_id
    && eq_bytes preset d.preset_id
    && has_type d

abbrev pub is_complete : List StoredDerivative → Bool
is_complete ds =
    count_where (has_variant (codes "master")) ds == 1
    && count_where (has_variant (codes "thumbnail")) ds == 1
    && all (is_sound (first_preset ds)) ds

-- `DerivativeManifest::from_status`.
unfoldable pub from_status : UploadStatusSnapshot → Result ManifestLoadError DerivativeManifest
from_status status = do
  reject_if
      (not (eq_state status.state ready)
        || status.deletion_pending
        || not (length status.derivatives == 2))
      not_ready
  reject_if (not (is_complete status.derivatives)) not_ready
  ok (record { derivatives = status.derivatives })

-- `DerivativeManifest::derivative`.
unfoldable pub derivative_of : DerivativeManifest → Bytes → Option StoredDerivative
derivative_of manifest variant = find_where (has_variant variant) manifest.derivatives
