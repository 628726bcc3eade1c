-- ===== src/Auth.antt =====
-- crates/g7mb-auth/src/lib.rs: the signatures of control requests and of public media URLs. The
-- hmac, sha2 and base64 crates are a parameter.
pub mod Payloads
pub mod Verification
use g7mediabooster.Base.{
  ℕ, zero, suc, ◌+◌, ◌-◌, ◌*◌, ◌/◌, ◌%◌, ◌≡◌, ◌↔◌, Bool, true, false, ◌&&◌, ◌||◌, not, List, [],
  ◌∷◌, ◌++◌, Option, none, some, Result, ok, err, reject_if, ok_or, ◌>>=◌, ◌>>◌, Bytes, codes, all,
  length, is_empty, ltb, leb, within, ◌^◌, if◌then◌else◌, identifier_byte, is_ascii_graphic,
  is_ascii_uppercase, lower_hex_byte, ◌==◌,
}
use g7mediabooster.Domain.Keys.{starts_with_byte}

-- An `i64`: `pos n` is n, and `negsuc n` is -(n + 1).
pub data ℤ : Type 0 where
  pos negsuc : ℕ → ℤ

-- `i64::abs_diff`.
abbrev pub abs_diff : ℤ → ℤ → ℕ
abs_diff (pos a) (pos b) = (a - b) + (b - a)
abs_diff (pos a) (negsuc b) = a + b + 1
abs_diff (negsuc a) (pos b) = a + b + 1
abs_diff (negsuc a) (negsuc b) = (a - b) + (b - a)

-- `a < b`.
abbrev pub before : ℤ → ℤ → Bool
before (pos a) (pos b) = ltb a b
before (pos a) (negsuc b) = false
before (negsuc a) (pos b) = true
before (negsuc a) (negsuc b) = ltb b a

-- `Display` of a number that is not negative; the number itself is fuel enough.
unfoldable pub digits : ℕ → ℕ → Bytes → Bytes
digits zero n acc = (b'0' + n % 10) ∷ acc
digits (suc fuel) n acc =
    let rest = digits fuel (n / 10) ((b'0' + n % 10) ∷ acc) in
    if ltb n 10 then (b'0' + n % 10) ∷ acc else rest

-- `Display` of an `i64`.
unfoldable pub show : ℤ → Bytes
unfolding digits
show (pos n) = digits n n []
show (negsuc n) = b'-' ∷ digits (n + 1) (n + 1) []

-- HMAC-SHA256 and base64url without padding. `verify_slice` compares a whole tag.
pub record Hmac : Type 0 where
  pub mac : Bytes → Bytes → Bytes
  pub accepts_key : Bytes → Bool
  pub verify_slice : Bytes → Bytes → Bytes → Bool
  pub encode : Bytes → Bytes
  pub decode : Bytes → Option Bytes
  pub verify_slice_iff :
      (key payload tag : Bytes) → (verify_slice key payload tag ≡ true) ↔ (tag ≡ mac key payload)
  pub decode-encode : (tag : Bytes) → decode (encode tag) ≡ some tag

pub record SignedMediaUrl : Type 0 where
  pub path : Bytes
  pub expires_at : ℤ
  pub signature : Bytes

pub data MediaUrlVerificationError : Type 0 where
  invalid_field expired excessive_lifetime invalid_encoding invalid_signature invalid_key :
      MediaUrlVerificationError

pub record SignedRequest : Type 0 where
  pub key_id : Bytes
  pub timestamp : ℤ
  pub nonce : Bytes
  pub method : Bytes
  pub path_and_query : Bytes
  pub body_sha256 : Bytes
  pub signature : Bytes

pub data VerificationError : Type 0 where
  stale_timestamp invalid_field invalid_encoding invalid_signature invalid_key : VerificationError

-- `SignedMediaUrl::canonical_payload`.
unfoldable pub media_payload : SignedMediaUrl → Bytes
media_payload m =
    codes "G7MB-MEDIA-HMAC-SHA256\nGET\n" ++ (m.path ++ (codes "\n" ++ show m.expires_at))

-- `SignedRequest::canonical_payload`.
unfoldable pub canonical_payload : SignedRequest → Bytes
canonical_payload r =
    codes "G7MB-HMAC-SHA256\n"
    ++ (r.key_id
        ++ (codes "\n"
            ++ (show r.timestamp
                ++ (codes "\n"
                    ++ (r.nonce
                        ++ (codes "\n"
                            ++ (r.method
                                ++ (codes "\n"
                                    ++ (r.path_and_query ++ (codes "\n" ++ r.body_sha256))))))))))

unfoldable pub valid_field : SignedRequest → Bool
valid_field r =
    not (is_empty r.key_id)
    && leb (length r.key_id) 128
    && all identifier_byte r.key_id
    && within 16 128 (length r.nonce)
    && all is_ascii_graphic r.nonce
    && not (is_empty r.method)
    && all is_ascii_uppercase r.method
    && starts_with_byte b'/' r.path_and_query
    && leb (length r.path_and_query) 8192
    && all is_ascii_graphic r.path_and_query
    && length r.body_sha256 == 64
    && all lower_hex_byte r.body_sha256

abbrev pub is_negative : ℤ → Bool
is_negative (pos n) = false
is_negative (negsuc n) = true

-- `as u64`, of a number that is not negative.
abbrev pub as_u64 : ℤ → ℕ
as_u64 (pos n) = n
as_u64 (negsuc n) = 2 ^ 64 - (n + 1)

abbrev pub starts_with : Bytes → Bytes → Bool
starts_with [] text = true
starts_with (x ∷ xs) [] = false
starts_with (x ∷ xs) (y ∷ ys) = x == y && starts_with xs ys

module _ (hmac : Hmac) where
  -- `verify`.
  unfoldable pub verify : SignedRequest → Bytes → ℤ → ℤ → Result VerificationError (Unit {0})
  verify request secret now allowed_skew = do
    reject_if
        (is_negative allowed_skew || ltb (as_u64 allowed_skew) (abs_diff now request.timestamp))
        stale_timestamp
    reject_if (not (valid_field request)) VerificationError.invalid_field
    reject_if (not (within 32 256 (length secret))) VerificationError.invalid_key
    signature ← ok_or (hmac.decode request.signature) VerificationError.invalid_encoding
    reject_if (not (hmac.accepts_key secret)) VerificationError.invalid_key
    reject_if (not (hmac.verify_slice secret (canonical_payload request) signature))
        VerificationError.invalid_signature

  -- `sign`.
  unfoldable pub sign : SignedRequest → Bytes → Result VerificationError Bytes
  sign request secret = do
    reject_if (not (valid_field request)) VerificationError.invalid_field
    reject_if (not (within 32 256 (length secret))) VerificationError.invalid_key
    reject_if (not (hmac.accepts_key secret)) VerificationError.invalid_key
    ok (hmac.encode (hmac.mac secret (canonical_payload request)))

unfoldable pub validate_media_url_fields :
    SignedMediaUrl → Result MediaUrlVerificationError (Unit {0})
validate_media_url_fields m =
    reject_if
      (not (starts_with (codes "/media/v1/") m.path)
        || ltb 2048 (length m.path)
        || not (all is_ascii_graphic m.path)
        || not (before (pos 0) m.expires_at))
      MediaUrlVerificationError.invalid_field

module _ (hmac : Hmac) where
  -- `media_url_mac`, of which the key is kept.
  unfoldable pub media_url_mac : Bytes → Result MediaUrlVerificationError Bytes
  media_url_mac secret = do
    reject_if (not (within 32 256 (length secret))) MediaUrlVerificationError.invalid_key
    reject_if (not (hmac.accepts_key secret)) MediaUrlVerificationError.invalid_key
    ok secret

  -- `sign_media_url`.
  unfoldable pub sign_media_url : SignedMediaUrl → Bytes → Result MediaUrlVerificationError Bytes
  unfolding validate_media_url_fields media_url_mac
  sign_media_url m secret = do
    validate_media_url_fields m
    key ← media_url_mac secret
    ok (hmac.encode (hmac.mac key (media_payload m)))

  -- `verify_media_url`.
  unfoldable pub verify_media_url :
      SignedMediaUrl → Bytes → ℤ → ℕ → Result MediaUrlVerificationError (Unit {0})
  unfolding validate_media_url_fields media_url_mac
  verify_media_url m secret now max_lifetime = do
    validate_media_url_fields m
    reject_if (before m.expires_at now) expired
    reject_if (ltb max_lifetime (abs_diff m.expires_at now)) excessive_lifetime
    signature ← ok_or (hmac.decode m.signature) MediaUrlVerificationError.invalid_encoding
    key ← media_url_mac secret
    reject_if (not (hmac.verify_slice key (media_payload m) signature))
        MediaUrlVerificationError.invalid_signature
