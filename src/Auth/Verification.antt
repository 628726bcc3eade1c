-- ===== src/Auth/Verification.antt =====
-- What `verify` and `verify_media_url` accept.
use g7mediabooster.Base.{
  ℕ, ◌≤◌, ◌≡◌, refl, sym, ap, ◌∙◌, inl, inr, Bool, true, false, ◌||◌, not, some, ok, reject_if,
  Bytes, codes, all, length, ltb, is_ascii_graphic, Option-cases, Result-cases, arith,
}
use g7mediabooster.Auth.{
  ℤ, pos, abs_diff, before, is_negative, as_u64, starts_with, Hmac, SignedRequest, SignedMediaUrl,
  MediaUrlVerificationError, canonical_payload, media_payload, valid_field, verify, sign,
  validate_media_url_fields, media_url_mac, verify_media_url,
}

module _ (hmac : Hmac) where
  -- A request that is recent, has valid fields, and carries the tag of its payload.
  pub record IsAuthentic (r : SignedRequest) (secret : Bytes) (now skew : ℤ) : Type 0 where
    pub allowed : is_negative skew ≡ false
    pub recent : abs_diff now r.timestamp ≤ as_u64 skew
    pub fields : valid_field r ≡ true
    pub long_key : 32 ≤ length secret
    pub short_key : length secret ≤ 256
    pub key : hmac.accepts_key secret ≡ true
    pub tag : hmac.decode r.signature ≡ some (hmac.mac secret (canonical_payload r))

  verify-accepts :
      (r : SignedRequest) (secret : Bytes) (now skew : ℤ)
      → IsAuthentic r secret now skew
      → verify hmac r secret now skew ≡ ok tt
  unfolding verify
  verify-accepts r secret now skew a = ground (
    arith,
    a.allowed,
    a.recent,
    a.fields,
    a.long_key,
    a.short_key,
    a.key,
    a.tag,
    (hmac.verify_slice_iff secret (canonical_payload r) (hmac.mac secret (canonical_payload r))).1
        refl,
  )

  verify-eq-ok :
      (r : SignedRequest) (secret : Bytes) (now skew : ℤ)
      → verify hmac r secret now skew ≡ ok tt
      → IsAuthentic r secret now skew
  unfolding verify
  verify-eq-ok r secret now skew h = elim (Option-cases (hmac.decode r.signature)) [
    | inl garbled ↦ ground (arith, h, garbled)
    | inr (tag, decoded) ↦
        let checked : hmac.verify_slice secret (canonical_payload r) tag ≡ true =
          ground (arith, h, decoded) in
        record {
          allowed = ground (arith, h);
          recent = ground (arith, h);
          fields = ground (arith, h);
          long_key = ground (arith, h);
          short_key = ground (arith, h);
          key = ground (arith, h, decoded);
          tag =
              decoded
              ∙ ap some ((hmac.verify_slice_iff secret (canonical_payload r) tag).0 checked);
        }
  ]

  -- A request is accepted exactly when the allowed skew is not negative and the timestamp is within
  -- it, the fields are valid, the key has 32 to 256 bytes and is one that HMAC takes, and the
  -- signature decodes to the tag of the canonical payload under the key.
  pub verify-IsAuthentic :
      (r : SignedRequest) (secret : Bytes) (now skew : ℤ)
      → (IsAuthentic r secret now skew → verify hmac r secret now skew ≡ ok tt)
        × (verify hmac r secret now skew ≡ ok tt → IsAuthentic r secret now skew)
  verify-IsAuthentic r secret now skew =
      (verify-accepts r secret now skew, verify-eq-ok r secret now skew)

  sign-tag :
      (r : SignedRequest) (secret signature : Bytes)
      → sign hmac r secret ≡ ok signature
      → (signature ≡ hmac.encode (hmac.mac secret (canonical_payload r)))
        × (valid_field r ≡ true)
        × (32 ≤ length secret)
        × (length secret ≤ 256)
        × (hmac.accepts_key secret ≡ true)
  unfolding sign
  sign-tag r secret signature h = (
    ground (arith, h),
    ground (arith, h),
    ground (arith, h),
    ground (arith, h),
    ground (arith, h),
  )

  -- The payload and the validity do not depend on the signature.
  unsigned_payload :
      (r : SignedRequest) (signature : Bytes)
      → canonical_payload (record r { signature = signature }) ≡ canonical_payload r
  unfolding canonical_payload
  unsigned_payload r signature = refl

  unsigned_fields :
      (r : SignedRequest) (signature : Bytes)
      → valid_field (record r { signature = signature }) ≡ valid_field r
  unfolding valid_field
  unsigned_fields r signature = refl

  -- A request that is signed verifies under the same key, with the signature that `sign` returns,
  -- at every time that the allowed skew, which is not negative, covers.
  pub sign-verify :
      (r : SignedRequest) (secret signature : Bytes) (now skew : ℤ)
      → sign hmac r secret ≡ ok signature
      → is_negative skew ≡ false
      → abs_diff now r.timestamp ≤ as_u64 skew
      → verify hmac (record r { signature = signature }) secret now skew ≡ ok tt
  sign-verify r secret signature now skew h allowed recent =
      let (made, fields, long_key, short_key, key) = sign-tag r secret signature h in
      verify-accepts (record r { signature = signature }) secret now skew
        (record {
          allowed = allowed;
          recent = recent;
          fields = unsigned_fields r signature ∙ fields;
          long_key = long_key;
          short_key = short_key;
          key = key;
          tag =
              ap hmac.decode made
              ∙ hmac.decode-encode _
              ∙ ap (λ payload. some (hmac.mac secret payload)) (sym (unsigned_payload r signature));
        })

  -- A media URL that may be served.
  pub record IsServable (m : SignedMediaUrl) (secret : Bytes) (now : ℤ) (max_lifetime : ℕ)
      : Type 0 where
    pub prefix : starts_with (codes "/media/v1/") m.path ≡ true
    pub short : length m.path ≤ 2048
    pub graphic : all is_ascii_graphic m.path ≡ true
    pub positive : before (pos 0) m.expires_at ≡ true
    pub alive : before m.expires_at now ≡ false
    pub bounded : abs_diff m.expires_at now ≤ max_lifetime
    pub long_key : 32 ≤ length secret
    pub short_key : length secret ≤ 256
    pub key : hmac.accepts_key secret ≡ true
    pub tag : hmac.decode m.signature ≡ some (hmac.mac secret (media_payload m))

  verify_media_url-accepts :
      (m : SignedMediaUrl) (secret : Bytes) (now : ℤ) (max_lifetime : ℕ)
      → IsServable m secret now max_lifetime
      → verify_media_url hmac m secret now max_lifetime ≡ ok tt
  unfolding verify_media_url validate_media_url_fields media_url_mac
  verify_media_url-accepts m secret now max_lifetime a = ground (
    arith,
    a.prefix,
    a.short,
    a.graphic,
    a.positive,
    a.alive,
    a.bounded,
    a.long_key,
    a.short_key,
    a.key,
    a.tag,
    (hmac.verify_slice_iff secret (media_payload m) (hmac.mac secret (media_payload m))).1 refl,
  )

  verified-fields :
      (m : SignedMediaUrl) (secret : Bytes) (now : ℤ) (max_lifetime : ℕ)
      → verify_media_url hmac m secret now max_lifetime ≡ ok tt
      → validate_media_url_fields m ≡ ok tt
  unfolding verify_media_url
  verified-fields m secret now max_lifetime h = elim (Result-cases (validate_media_url_fields m)) [
    | inl (u, e) ↦ e
    | inr (x, e) ↦ ground (arith, h, e)
  ]

  verified-key :
      (m : SignedMediaUrl) (secret : Bytes) (now : ℤ) (max_lifetime : ℕ)
      → verify_media_url hmac m secret now max_lifetime ≡ ok tt
      → (tag key : Bytes) × (hmac.decode m.signature ≡ some tag)
        × (media_url_mac hmac secret ≡ ok key)
        × (before m.expires_at now ≡ false)
        × (abs_diff m.expires_at now ≤ max_lifetime)
        × (hmac.verify_slice key (media_payload m) tag ≡ true)
  unfolding verify_media_url
  verified-key m secret now max_lifetime h =
      let fields = verified-fields m secret now max_lifetime h in
      elim (Option-cases (hmac.decode m.signature)) [
        | inl garbled ↦ ground (arith, h, fields, garbled)
        | inr (tag, decoded) ↦ elim (Result-cases (media_url_mac hmac secret)) [
          | inl (key, made) ↦ (
            tag,
            key,
            decoded,
            made,
            ground (arith, h, fields, decoded, made),
            ground (arith, h, fields, decoded, made),
            ground (arith, h, fields, decoded, made),
          )
          | inr (x, refused) ↦ ground (arith, h, fields, decoded, refused)
        ]
      ]

  mac-key :
      (secret key : Bytes)
      → media_url_mac hmac secret ≡ ok key
      → (key ≡ secret)
        × (32 ≤ length secret)
        × (length secret ≤ 256)
        × (hmac.accepts_key secret ≡ true)
  unfolding media_url_mac
  mac-key secret key h =
      (ground (arith, h), ground (arith, h), ground (arith, h), ground (arith, h))

  fields-path :
      (m : SignedMediaUrl)
      → validate_media_url_fields m ≡ ok tt
      → (starts_with (codes "/media/v1/") m.path ≡ true)
        × (length m.path ≤ 2048)
        × (all is_ascii_graphic m.path ≡ true)
        × (before (pos 0) m.expires_at ≡ true)
  unfolding validate_media_url_fields
  fields-path m h =
      facts (starts_with (codes "/media/v1/") m.path) (all is_ascii_graphic m.path)
        (before (pos 0) m.expires_at) h
    where
      facts :
          (a b c : Bool)
          → reject_if
              (not a || ltb 2048 (length m.path) || not b || not c)
              MediaUrlVerificationError.invalid_field
            ≡ ok tt
          → (a ≡ true) × (length m.path ≤ 2048) × (b ≡ true) × (c ≡ true)
      facts a b c e = (ground (arith, e), ground (arith, e), ground (arith, e), ground (arith, e))

  verify_media_url-eq-ok :
      (m : SignedMediaUrl) (secret : Bytes) (now : ℤ) (max_lifetime : ℕ)
      → verify_media_url hmac m secret now max_lifetime ≡ ok tt
      → IsServable m secret now max_lifetime
  verify_media_url-eq-ok m secret now max_lifetime h =
      let (prefix, short, graphic, positive) =
        fields-path m (verified-fields m secret now max_lifetime h) in
      let (tag, key, decoded, made, alive, bounded, checked) =
        verified-key m secret now max_lifetime h in
      let (same, long_key, short_key, accepted) = mac-key secret key made in
      record {
        prefix = prefix;
        short = short;
        graphic = graphic;
        positive = positive;
        alive = alive;
        bounded = bounded;
        long_key = long_key;
        short_key = short_key;
        key = accepted;
        tag =
            decoded
            ∙ ap some ((hmac.verify_slice_iff key (media_payload m) tag).0 checked)
            ∙ ap (λ k. some (hmac.mac k (media_payload m))) same;
      }

  -- A media URL is accepted exactly when its path starts with `/media/v1/` and has at most 2048
  -- graphic bytes, its expiry is positive, has not passed, and is at most the longest lifetime away,
  -- the key has 32 to 256 bytes and is one that HMAC takes, and the signature decodes to the tag of
  -- the payload under the key.
  pub verify_media_url-IsServable :
      (m : SignedMediaUrl) (secret : Bytes) (now : ℤ) (max_lifetime : ℕ)
      → (IsServable m secret now max_lifetime
          → verify_media_url hmac m secret now max_lifetime ≡ ok tt)
        × (verify_media_url hmac m secret now max_lifetime ≡ ok tt
            → IsServable m secret now max_lifetime)
  verify_media_url-IsServable m secret now max_lifetime = (
    verify_media_url-accepts m secret now max_lifetime,
    verify_media_url-eq-ok m secret now max_lifetime,
  )
