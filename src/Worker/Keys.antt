-- ===== src/Worker/Keys.antt =====
-- The keys and presets that a worker makes are accepted wherever they go.
use g7mediabooster.Base.{
  ◌+◌, ◌≤◌, ◌≡◌, refl, ◌∙◌, true, false, List, [], ◌∷◌, ◌++◌, Option, none, some, ok, Bytes, codes,
  all, All, length, is_empty, length-append, all-append, identifier_byte, lower_hex_byte, arith,
}
use g7mediabooster.Domain.Keys.{new}
use g7mediabooster.Domain.Keys.Grammar.{IsSegment, new-IsKey}
use g7mediabooster.Store.Processing.{ProcessingSource, narrow_token, is_sha256}
use g7mediabooster.Uploads.{tenant_is_valid}
use g7mediabooster.Delivery.Redirects.{valid_preset}
use g7mediabooster.Uploads.RawKeys.{UuidText, identifier-IsSegment, uuid-IsSegment, tenant_facts}
use g7mediabooster.Worker.{WatermarkPolicy, watermark_is_valid, watermark_preset_id}
use g7mediabooster.Worker.Derivatives.{preset_of, derivative_path}

hex-identifier : (s : Bytes) → all lower_hex_byte s ≡ true → all identifier_byte s ≡ true
hex-identifier [] h = refl
hex-identifier (c ∷ cs) h = ground (arith, hex-identifier cs)

-- A preset is the default one, or that of a valid watermark.
abbrev pub IsPrepared : Option WatermarkPolicy → Type 0
IsPrepared none = Unit
IsPrepared (some w) = watermark_is_valid w ≡ true

watermark_facts :
    (w : WatermarkPolicy)
    → watermark_is_valid w ≡ true
    → (length w.asset_sha256 ≡ 64)
      × (all lower_hex_byte w.asset_sha256 ≡ true)
      × (length w.preset_revision ≤ 32)
      × (all identifier_byte w.preset_revision ≡ true)
unfolding watermark_is_valid
watermark_facts w h = ground arith

length-watermark_preset_id :
    (w : WatermarkPolicy)
    → length (watermark_preset_id w) ≡ length w.preset_revision + length w.asset_sha256 + 21
length-watermark_preset_id w =
    omega (arith, length-append w.preset_revision (codes "-" ++ w.asset_sha256))

preset_facts :
    (watermark : Option WatermarkPolicy)
    → IsPrepared watermark
    → (length (preset_of watermark) ≤ 117)
      × (is_empty (preset_of watermark) ≡ false)
      × (all identifier_byte (preset_of watermark) ≡ true)
preset_facts none h = (omega arith, refl, refl)
preset_facts (some w) h =
    let (n, x, r, i) = watermark_facts w h in
    (
      omega (arith, length-watermark_preset_id w),
      refl,
      all-append identifier_byte w.preset_revision (codes "-" ++ w.asset_sha256)
          ∙ rw i (hex-identifier w.asset_sha256 x),
    )

digest_facts :
    (digest : Bytes)
    → is_sha256 digest ≡ true
    → (length digest ≡ 64) × (all lower_hex_byte digest ≡ true)
digest_facts digest h = ground arith

digest-IsSegment : (digest : Bytes) → is_sha256 digest ≡ true → IsSegment digest
digest-IsSegment digest h =
    let (n, x) = digest_facts digest h in
    identifier-IsSegment digest (not_empty digest n) (hex-identifier digest x)
  where
    not_empty : (s : Bytes) → length s ≡ 64 → is_empty s ≡ false
    not_empty [] n = absurd (omega (arith, n))
    not_empty (c ∷ cs) n = refl

module _ (uuid : UuidText) (source : ProcessingSource) (digest : Bytes)
    (watermark : Option WatermarkPolicy) (file : Bytes) where
  abbrev segments : List Bytes
  segments =
      codes "media"
      ∷ source.tenant_id
      ∷ uuid.show source.upload_id
      ∷ digest
      ∷ preset_of watermark
      ∷ file
      ∷ []

  length-derivative_path :
      length (derivative_path uuid source digest (preset_of watermark) file)
      ≡ length source.tenant_id + length digest + length (preset_of watermark) + length file + 46
  length-derivative_path = omega (
    arith,
    length-append source.tenant_id (
        codes "/"
        ++ (uuid.show source.upload_id
            ++ (codes "/"
                ++ (digest ++ (codes "/" ++ (preset_of watermark ++ (codes "/" ++ file))))))),
    length-append (uuid.show source.upload_id)
        (codes "/" ++ (digest ++ (codes "/" ++ (preset_of watermark ++ (codes "/" ++ file))))),
    length-append digest (codes "/" ++ (preset_of watermark ++ (codes "/" ++ file))),
    length-append (preset_of watermark) (codes "/" ++ file),
    uuid.show_length source.upload_id,
  )

  segments-All :
      tenant_is_valid source.tenant_id ≡ true
      → is_sha256 digest ≡ true
      → IsPrepared watermark
      → IsSegment file
      → All IsSegment segments
  segments-All t d p f =
      let (n, l, b) = tenant_facts source.tenant_id t in
      let (k, e, i) = preset_facts watermark p in
      (
        identifier-IsSegment (codes "media") refl refl,
        (
          identifier-IsSegment source.tenant_id n b,
          (
            uuid-IsSegment (uuid.show source.upload_id) (uuid.show_length source.upload_id)
                (uuid.show_bytes source.upload_id),
            (digest-IsSegment digest d, (identifier-IsSegment (preset_of watermark) e i, (f, tt))),
          ),
        ),
      )

  -- For a valid tenant, a digest of 64 hexadecimal digits, the default preset or that of a valid
  -- watermark, and a file name that is a path segment of at most 64 bytes, the derivative's key
  -- passes `ObjectKey::new`, and its preset is one that `publish_derivatives` and the delivery take:
  -- DERIVATIVE_KEY_INVALID never arises.
  pub new-derivative_path :
      tenant_is_valid source.tenant_id ≡ true
      → is_sha256 digest ≡ true
      → IsPrepared watermark
      → IsSegment file
      → length file ≤ 64
      → (new (derivative_path uuid source digest (preset_of watermark) file)
          ≡ ok (record { value = derivative_path uuid source digest (preset_of watermark) file }))
        × (narrow_token (preset_of watermark) 128 ≡ true)
        × (valid_preset (preset_of watermark) ≡ true)
  unfolding valid_preset
  new-derivative_path t d p f l =
      let (k, e, i) = preset_facts watermark p in
      (
        (new-IsKey (derivative_path uuid source digest (preset_of watermark) file)).0 (record {
          segments = segments;
          some_segment = λ e. cc;
          joined = refl;
          all_segments = segments-All t d p f;
          bounded = omega (
            arith,
            length-derivative_path,
            tenant_facts source.tenant_id t,
            digest_facts digest d,
            k,
          );
        }),
        ground (arith, k, e, i),
        ground (arith, k, e, i),
      )
