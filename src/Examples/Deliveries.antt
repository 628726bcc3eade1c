-- ===== src/Examples/Deliveries.antt =====
-- A delivery from a cached manifest.
use g7mediabooster.Base.{◌≡◌, ◌⊎◌, refl, true, false, [], ◌∷◌, none, some, ok, codes, ℕ, find_where}
use g7mediabooster.Ports.{from_secs, ObjectStore, PresignedDownload}
use g7mediabooster.Uploads.{StoredDerivative}
use g7mediabooster.Delivery.Redirects.{UrlParser, valid_tenant, trusted_redirect}
use g7mediabooster.Delivery.Manifests.{derivative_of}
use g7mediabooster.Delivery.{
  DerivativeDeliveryService, ManifestCache, delivery_of, presign_inner, presign_valid, manifest_of,
  allowed, sign_derivative,
}
use g7mediabooster.Delivery.Authorized.{IsAuthorized, presign_inner-IsAuthorized}
use g7mediabooster.Examples.Controls.{holding, stored_with, counted_provider}
use g7mediabooster.Domain.{single_put}

abbrev master : StoredDerivative
master = record {
  preset_id = codes "p";
  variant = codes "master";
  object_key = record { value = codes "media/1" };
  content_type = codes "image/jpeg";
  byte_len = 10;
}

abbrev thumbnail : StoredDerivative
thumbnail = record {
  preset_id = codes "p";
  variant = codes "thumbnail";
  object_key = record { value = codes "media/2" };
  content_type = codes "image/jpeg";
  byte_len = 3;
}

abbrev link : PresignedDownload
link = record { url = codes "https://cdn/1"; expires_at = 900 }

abbrev provider : ObjectStore ℕ
provider = record counted_provider { presign_get = λ q w. (ok link, w) }

-- Every manifest is cached.
abbrev cache : ManifestCache ℕ
cache = record {
  get = λ key w. (some (record { derivatives = master ∷ thumbnail ∷ [] }), w);
  try_get_with = λ key load. load;
  invalidate = λ key w. w;
}

-- Every text is the URL of one host.
abbrev urls : UrlParser
urls = record {
  parse = λ text. some (record {
    scheme = codes "https";
    username = [];
    password = none;
    host = some (codes "cdn");
    port = none;
    fragment = none;
  });
  is_loopback_address = λ host. false;
}

abbrev service : DerivativeDeliveryService ℕ
service = record {
  repository = record (holding (stored_with single_put none)) {
    is_delivery_allowed = λ t i w. (ok (some true), w);
  };
  derivative_store = provider;
  policy = record {
    signed_url_ttl = from_secs 60;
    manifest_cache_ttl = from_secs 60;
    manifest_cache_max_bytes = 65536;
    redirect_allowed_authorities = codes "cdn" ∷ [];
  };
  manifests = cache;
  urls = urls;
}

delivered :
    presign_inner service (codes "t1") 7 (some (codes "p")) (codes "thumbnail") 0
    ≡ (ok (delivery_of thumbnail link), 0)
unfolding presign_inner presign_valid manifest_of allowed sign_derivative valid_tenant
    trusted_redirect derivative_of find_where
delivered = refl

presign_inner-IsAuthorized_example :
    (valid_tenant (codes "t1") ≡ true)
    × ((codes "thumbnail" ≡ codes "master") ⊎ (codes "thumbnail" ≡ codes "thumbnail"))
    × IsAuthorized service
        (record { tenant_id = codes "t1"; upload_id = 7 })
        (some (codes "p"))
        (codes "thumbnail")
        0
        (delivery_of thumbnail link)
        0
presign_inner-IsAuthorized_example =
    presign_inner-IsAuthorized service (codes "t1") 7 (some (codes "p")) (codes "thumbnail") 0
      (delivery_of thumbnail link) 0 delivered
