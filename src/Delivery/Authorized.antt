-- ===== src/Delivery/Authorized.antt =====
-- What a signed delivery went through.
use g7mediabooster.Base.{
  ◌≡◌, refl, ◌⊎◌, inl, inr, Bool, true, false, not, Option, none, some, ok, ok_or, Bytes, codes,
  eq_bytes, eq_bytes_eq, arith, Memᴰ, find_where-Memᴰ, Bool-cases,
}
use g7mediabooster.Domain.{UploadId}
use g7mediabooster.Ports.{PresignGetRequest, PresignedDownload}
use g7mediabooster.Ports.Effects.{Effect, after}
use g7mediabooster.Ports.Chains.{Ran, convert-ok}
use g7mediabooster.Ports.Ends.{called-end, chained-end, lifted-end, passed-end, ended, same_end}
use g7mediabooster.Uploads.{StoredDerivative}
use g7mediabooster.Delivery.Redirects.{valid_tenant, trusted_redirect}
use g7mediabooster.Delivery.Manifests.{DerivativeManifest, has_variant, derivative_of}
use g7mediabooster.Delivery.Authorities.{IsTrusted, trusted_redirect-IsTrusted}
use g7mediabooster.Delivery.{
  DerivativeDelivery, DerivativeDeliveryError, untrusted_redirect, invalid_tenant, invalid_variant,
  ManifestKey, DerivativeDeliveryService, is_variant, is_other_preset, manifest_of,
  map_manifest_load_error, load_manifest, found_or_loaded, allowed, sign_derivative, presign_valid,
  presign_inner,
}

-- The preset that was asked for, if one was.
abbrev pub HasPreset : Option Bytes → StoredDerivative → Type 0
HasPreset none d = Unit {0}
HasPreset (some preset_id) d = d.preset_id ≡ preset_id

-- A delivery tells of a derivative and of the signed URL.
pub record Tells (d : StoredDerivative) (signed : PresignedDownload) (delivery : DerivativeDelivery)
    : Type 0 where
  pub preset_id : delivery.preset_id ≡ d.preset_id
  pub variant : delivery.variant ≡ d.variant
  pub content_type : delivery.content_type ≡ d.content_type
  pub byte_len : delivery.byte_len ≡ d.byte_len
  pub url : delivery.url ≡ signed.url
  pub expires_at : delivery.expires_at ≡ signed.expires_at

module _ {W : Type 0} (service : DerivativeDeliveryService W) where
  open service use {repository, derivative_store, policy, manifests, urls}

  -- The manifest of the cache, or of the loader that the cache runs where it has none.
  abbrev pub IsRead : ManifestKey → W → DerivativeManifest → W → Type 0
  IsRead key w manifest v =
      (manifests.get key w ≡ (some manifest, v))
      ⊎ ((u : W) × (manifests.get key w ≡ (none, u))
          × Ran (manifests.try_get_with key (load_manifest service key)) u manifest v)

  -- From the read of the manifest to the signature, each call in the world that the last one left.
  pub record IsAuthorized (key : ManifestKey) (preset_id : Option Bytes) (variant : Bytes) (w : W)
      (delivery : DerivativeDelivery) (v : W) : Type 0 where
    pub manifest : DerivativeManifest
    pub looked : W
    pub read : IsRead key w manifest looked
    pub asked : W
    pub is_allowed :
        Ran (repository.is_delivery_allowed key.tenant_id key.upload_id) looked (some true) asked
    pub derivative : StoredDerivative
    pub member : Memᴰ derivative manifest.derivatives
    pub named : derivative.variant ≡ variant
    pub preset : HasPreset preset_id derivative
    pub signed : PresignedDownload
    pub signs :
        Ran
          (derivative_store.presign_get
            (record { key = derivative.object_key; expires_in = policy.signed_url_ttl }))
          asked
          signed
          v
    pub trusted : IsTrusted urls signed.url policy.redirect_allowed_authorities
    pub tells : Tells derivative signed delivery

  found_or_loaded-IsRead :
      (key : ManifestKey) (w : W) (o : Option DerivativeManifest × W)
      {manifest : DerivativeManifest} {v : W}
      → manifests.get key w ≡ o
      → found_or_loaded service key o ≡ (ok manifest, v)
      → IsRead key w manifest v
  found_or_loaded-IsRead key w (some m, u) e h =
      let (same, there) = ended h in inl (rw (e, same, there) refl)
  found_or_loaded-IsRead key w (none, u) e h = inr (u, e, h)

  manifest_of-IsRead :
      (key : ManifestKey) (w : W) {manifest : DerivativeManifest} {v : W}
      → Ran (manifest_of service key) w manifest v
      → IsRead key w manifest v
  unfolding manifest_of
  manifest_of-IsRead key w h =
      found_or_loaded-IsRead key w (manifests.get key w) refl
        (convert-ok map_manifest_load_error (found_or_loaded service key (manifests.get key w)) h)

  -- Only the answer `Some(true)` lets a delivery go on, in the world as it is.
  allowed-end :
      (key : ManifestKey) (answer : Option Bool) (w : W)
      (k : Effect W DerivativeDeliveryError DerivativeDelivery) {delivery : DerivativeDelivery}
      {v : W}
      → after (allowed service key answer w) (λ _. k) ≡ (ok delivery, v)
      → (answer ≡ some true) × Ran k w delivery v
  unfolding allowed
  allowed-end key (some true) w k h = (refl, h)
  allowed-end key (some false) w k h = cc
  allowed-end key none w k h = cc

  same_preset :
      (preset_id : Option Bytes) (d : StoredDerivative)
      → is_other_preset preset_id d ≡ false
      → HasPreset preset_id d
  same_preset none d h = tt
  same_preset (some p) d h = eq_bytes_eq d.preset_id p (ground (arith, h))

  found :
      (o : Option StoredDerivative) (e : DerivativeDeliveryError) {d : StoredDerivative}
      → ok_or o e ≡ ok d
      → o ≡ some d
  found none e h = cc
  found (some d) e h = cc

  derivative_of-Memᴰ :
      (manifest : DerivativeManifest) (variant : Bytes) (d : StoredDerivative)
      → derivative_of manifest variant ≡ some d
      → Memᴰ d manifest.derivatives × (d.variant ≡ variant)
  unfolding derivative_of
  derivative_of-Memᴰ manifest variant d h =
      let (m, e) = find_where-Memᴰ (has_variant variant) manifest.derivatives h in
      (m, eq_bytes_eq d.variant variant e)

  -- A signature, whose URL is trusted.
  IsSigned : StoredDerivative → W → DerivativeDelivery → W → Type 0
  IsSigned d w delivery v =
      (signed : PresignedDownload) × Ran
        (derivative_store.presign_get
          (record { key = d.object_key; expires_in = policy.signed_url_ttl }))
        w signed v
      × IsTrusted urls signed.url policy.redirect_allowed_authorities
      × Tells d signed delivery

  sign_derivative-IsSigned :
      (d : StoredDerivative) (w : W) (delivery : DerivativeDelivery) (v : W)
      → Ran (sign_derivative service d) w delivery v
      → IsSigned d w delivery v
  unfolding sign_derivative IsSigned
  sign_derivative-IsSigned d w delivery v h =
      let q : PresignGetRequest = record {
        key = d.object_key;
        expires_in = policy.signed_url_ttl;
      } in
      let (signed, u, signs, h1) =
        called-end DerivativeDeliveryError.object_store (derivative_store.presign_get q) _ w h in
      let (trusted, h2) =
        passed-end (not (trusted_redirect urls signed.url policy.redirect_allowed_authorities))
          untrusted_redirect _ u h1 in
      let (same, there) = ended h2 in
      (
        signed,
        same_end signs refl there,
        trusted_redirect-IsTrusted urls signed.url policy.redirect_allowed_authorities
            (ground (arith, trusted)),
        rw (← same) (record {
          preset_id = refl;
          variant = refl;
          content_type = refl;
          byte_len = refl;
          url = refl;
          expires_at = refl;
        }),
      )

  presign_valid-IsAuthorized :
      (key : ManifestKey) (preset_id : Option Bytes) (variant : Bytes) (w : W)
      (delivery : DerivativeDelivery) (v : W)
      → Ran (presign_valid service key preset_id variant) w delivery v
      → IsAuthorized key preset_id variant w delivery v
  unfolding presign_valid IsSigned
  presign_valid-IsAuthorized key preset_id variant w delivery v h =
      let (manifest, w1, reads, h1) = chained-end (manifest_of service key) _ w h in
      let (answer, w2, answers, h2) =
        called-end DerivativeDeliveryError.repository
          (repository.is_delivery_allowed key.tenant_id key.upload_id) _ w1 h1 in
      let (allows, h3) = allowed-end key answer w2 _ h2 in
      let (derivative, there, h4) =
        lifted-end (ok_or (derivative_of manifest variant) DerivativeDeliveryError.not_found) _ w2
          h3 in
      let (same, h5) =
        passed-end (is_other_preset preset_id derivative) DerivativeDeliveryError.not_found _ w2
          h4 in
      let (signed, signs, trusted, tells) = sign_derivative-IsSigned derivative w2 delivery v h5 in
      let (member, named) = derivative_of-Memᴰ manifest variant derivative (found _ _ there) in
      record {
        manifest = manifest;
        looked = w1;
        read = manifest_of-IsRead key w reads;
        asked = w2;
        is_allowed = same_end answers allows refl;
        derivative = derivative;
        member = member;
        named = named;
        preset = same_preset preset_id derivative same;
        signed = signed;
        signs = signs;
        trusted = trusted;
        tells = tells;
      }

  variant_of : (v : Bytes) → is_variant v ≡ true → (v ≡ codes "master") ⊎ (v ≡ codes "thumbnail")
  variant_of v h = elim (Bool-cases (eq_bytes v (codes "master"))) [
    | inl master ↦ inl (eq_bytes_eq v _ master)
    | inr other ↦ inr (eq_bytes_eq v _ (ground (arith, h, other)))
  ]

  -- A delivery is made only for a valid tenant and the variant master or thumbnail, and it is
  -- authorized: a manifest was read from the cache or by its loader, after that the repository
  -- allowed the delivery, a derivative of the manifest has the variant and the preset that were
  -- asked for, and its URL was signed last and leads to an allowed authority, over https or to this
  -- machine, without credentials and fragment. The delivery tells of that derivative and URL.
  pub presign_inner-IsAuthorized :
      (tenant_id : Bytes) (upload_id : UploadId) (preset_id : Option Bytes) (variant : Bytes)
      (w : W) (delivery : DerivativeDelivery) (v : W)
      → Ran (presign_inner service tenant_id upload_id preset_id variant) w delivery v
      → (valid_tenant tenant_id ≡ true)
        × ((variant ≡ codes "master") ⊎ (variant ≡ codes "thumbnail"))
        × IsAuthorized
            (record { tenant_id = tenant_id; upload_id = upload_id })
            preset_id
            variant
            w
            delivery
            v
  unfolding presign_inner
  presign_inner-IsAuthorized tenant_id upload_id preset_id variant w delivery v h =
      let (tenant, h1) = passed-end (not (valid_tenant tenant_id)) invalid_tenant _ w h in
      let (named, h2) = passed-end (not (is_variant variant)) invalid_variant _ w h1 in
      (
        ground (arith, tenant),
        variant_of variant (ground (arith, named)),
        presign_valid-IsAuthorized (record { tenant_id = tenant_id; upload_id = upload_id })
            preset_id variant w delivery v h2,
      )
