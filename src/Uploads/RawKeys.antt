-- ===== src/Uploads/RawKeys.antt =====
-- crates/g7mb-application/src/uploads.rs: the raw object key `raw/{tenant_id}/{upload_id}/source`
-- that `create_batch` generates.
use g7mediabooster.Base.{
  ℕ, ◌+◌, ◌≤◌, ◌≡◌, refl, ap, sym, ◌∙◌, subst, true, false, ◌||◌, List, [], ◌∷◌, ◌++◌, Bytes, codes,
  all, All, length, is_empty, ok, arith, lower_hex_byte, identifier_byte, ◌==◌, length-append,
}
use g7mediabooster.Domain.{UploadId}
use g7mediabooster.Domain.Keys.{split, new}
use g7mediabooster.Domain.Keys.Split.{split-join}
use g7mediabooster.Domain.Keys.Grammar.{IsSegment, segments-lack, is_segment_byte, new-IsKey}
use g7mediabooster.Uploads.{tenant_is_valid}

-- `Display` of a Uuid, of the uuid crate: 36 lower-case hexadecimal digits and hyphens.
pub record UuidText : Type 0 where
  pub show : UploadId → Bytes
  pub show_length : (id : UploadId) → length (show id) ≡ 36
  pub show_bytes : (id : UploadId) → all (λ b. lower_hex_byte b || b == b'-') (show id) ≡ true

module _ (uuid : UuidText) where
  abbrev pub raw_key : Bytes → UploadId → Bytes
  raw_key tenant_id upload_id =
      codes "raw/" ++ (tenant_id ++ (codes "/" ++ (uuid.show upload_id ++ codes "/source")))

identifier-portable : (s : Bytes) → all identifier_byte s ≡ true → all is_segment_byte s ≡ true
identifier-portable [] h = refl
identifier-portable (c ∷ cs) h = ground (arith, identifier-portable cs)

pub identifier-IsSegment :
    (s : Bytes) → is_empty s ≡ false → all identifier_byte s ≡ true → IsSegment s
identifier-IsSegment s n h = record {
  named = λ e. cc (subst (λ t. is_empty t ≡ false) e n);
  not_current = λ e. cc (subst (λ t. all identifier_byte t ≡ true) e h);
  not_parent = λ e. cc (subst (λ t. all identifier_byte t ≡ true) e h);
  portable = identifier-portable s h;
}

uuid-portable :
    (s : Bytes) → all (λ b. lower_hex_byte b || b == b'-') s ≡ true → all is_segment_byte s ≡ true
uuid-portable [] h = refl
uuid-portable (c ∷ cs) h = ground (arith, uuid-portable cs)

pub uuid-IsSegment :
    (s : Bytes) → length s ≡ 36 → all (λ b. lower_hex_byte b || b == b'-') s ≡ true → IsSegment s
uuid-IsSegment s n h = record {
  named = λ e. absurd (omega (arith, ap (length {A = ℕ}) e));
  not_current = λ e. absurd (omega (arith, ap (length {A = ℕ}) e));
  not_parent = λ e. absurd (omega (arith, ap (length {A = ℕ}) e));
  portable = uuid-portable s h;
}

pub tenant_facts :
    (t : Bytes)
    → tenant_is_valid t ≡ true
    → (is_empty t ≡ false) × (length t ≤ 64) × (all identifier_byte t ≡ true)
unfolding tenant_is_valid
tenant_facts t h = ground arith

module _ (uuid : UuidText) where
  abbrev raw_segments : Bytes → UploadId → List Bytes
  raw_segments t id = codes "raw" ∷ t ∷ uuid.show id ∷ codes "source" ∷ []

  length-raw_key : (t : Bytes) (id : UploadId) → length (raw_key uuid t id) ≡ length t + 48
  length-raw_key t id = omega (
    arith,
    length-append t (codes "/" ++ (uuid.show id ++ codes "/source")),
    length-append (uuid.show id) (codes "/source"),
    uuid.show_length id,
  )

  raw_segments-All :
      (t : Bytes) (id : UploadId) → tenant_is_valid t ≡ true → All IsSegment (raw_segments t id)
  raw_segments-All t id h =
      let (n, l, b) = tenant_facts t h in
      (
        identifier-IsSegment (codes "raw") refl refl,
        (
          identifier-IsSegment t n b,
          (
            uuid-IsSegment (uuid.show id) (uuid.show_length id) (uuid.show_bytes id),
            (identifier-IsSegment (codes "source") refl refl, tt),
          ),
        ),
      )

  -- The key that is generated for an upload of a valid tenant always passes `ObjectKey::new`, so
  -- `create_batch` never fails with `GeneratedObjectKey`.
  pub new-raw_key :
      (t : Bytes) (id : UploadId)
      → tenant_is_valid t ≡ true
      → new (raw_key uuid t id) ≡ ok (record { value = raw_key uuid t id })
  new-raw_key t id h = (new-IsKey (raw_key uuid t id)).0 (record {
    segments = raw_segments t id;
    some_segment = λ e. cc;
    joined = refl;
    all_segments = raw_segments-All t id h;
    bounded = omega (arith, length-raw_key t id, tenant_facts t h);
  })

  segments_of_raw_key :
      (t : Bytes) (id : UploadId)
      → tenant_is_valid t ≡ true
      → split b'/' (raw_key uuid t id) ≡ raw_segments t id
  segments_of_raw_key t id h =
      split-join b'/' (raw_segments t id) (λ e. cc)
        (segments-lack (raw_segments t id) (raw_segments-All t id h))

  -- Two valid tenants never share a raw key: from the key one reads back the tenant and the text
  -- of the upload's identifier.
  pub raw_key_injective :
      (t u : Bytes) (i j : UploadId)
      → tenant_is_valid t ≡ true
      → tenant_is_valid u ≡ true
      → raw_key uuid t i ≡ raw_key uuid u j
      → (t ≡ u) × (uuid.show i ≡ uuid.show j)
  raw_key_injective t u i j h k e =
      let same : raw_segments t i ≡ raw_segments u j =
        sym (segments_of_raw_key t i h) ∙ ap (split b'/') e ∙ segments_of_raw_key u j k in
      (cc, cc)
