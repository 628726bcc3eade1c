-- ===== src/Examples/Auths.antt =====
-- crates/g7mb-auth/src/lib.rs on concrete inputs, with a tag that is the payload itself.
use g7mediabooster.Base.{
  ◌≡◌, ◌≢◌, refl, true, [], some, ok, Bytes, codes, arith, eq_bytes, eq_bytes_iff,
}
use g7mediabooster.Auth.{
  pos, Hmac, SignedRequest, SignedMediaUrl, valid_field, canonical_payload, media_payload, verify,
  sign, verify_media_url,
}
use g7mediabooster.Auth.Payloads.{
  IsSameRequest, canonical_payload_injective, canonical_payload-ne-media_payload,
}
use g7mediabooster.Auth.Verification.{
  IsAuthentic, verify-IsAuthentic, sign-verify, IsServable, verify_media_url-IsServable,
}

abbrev plain : Hmac
plain = record {
  mac = λ key payload. payload;
  accepts_key = λ key. true;
  verify_slice = λ key payload tag. eq_bytes tag payload;
  encode = λ tag. tag;
  decode = λ tag. some tag;
  verify_slice_iff = λ key payload tag. eq_bytes_iff tag payload;
  decode-encode = λ tag. refl;
}

abbrev request : SignedRequest
request = record {
  key_id = codes "g5-primary";
  timestamp = pos 170;
  nonce = codes "0123456789abcdef";
  method = codes "POST";
  path_and_query = codes "/v1/uploads";
  body_sha256 = codes "e3b0c44298fc1c149afbf4c8996fb92427ae41e4649b934ca495991b7852b855";
  signature = [];
}

abbrev secret : Bytes
secret = codes "0123456789abcdef0123456789abcdef"

abbrev media : SignedMediaUrl
media = record { path = codes "/media/v1/a/b.webp"; expires_at = pos 200; signature = [] }

request_is_valid : valid_field request ≡ true
unfolding valid_field
request_is_valid = refl

signed_is_valid : valid_field (record request { signature = codes "x" }) ≡ true
unfolding valid_field
signed_is_valid = refl

same_payload :
    canonical_payload request ≡ canonical_payload (record request { signature = codes "x" })
unfolding canonical_payload
same_payload = refl

canonical_payload_injective_example :
    IsSameRequest request (record request { signature = codes "x" })
canonical_payload_injective_example =
    canonical_payload_injective request (record request { signature = codes "x" }) request_is_valid
      signed_is_valid same_payload

canonical_payload-ne-media_payload_example : canonical_payload request ≢ media_payload media
canonical_payload-ne-media_payload_example = canonical_payload-ne-media_payload request media

verify-IsAuthentic_example :
    (IsAuthentic plain request secret (pos 200) (pos 300)
      → verify plain request secret (pos 200) (pos 300) ≡ ok tt)
    × (verify plain request secret (pos 200) (pos 300) ≡ ok tt
        → IsAuthentic plain request secret (pos 200) (pos 300))
verify-IsAuthentic_example = verify-IsAuthentic plain request secret (pos 200) (pos 300)

signed : sign plain request secret ≡ ok (canonical_payload request)
unfolding sign valid_field
signed = refl

sign-verify_example :
    verify plain
      (record request { signature = canonical_payload request })
      secret
      (pos 200)
      (pos 300)
    ≡ ok tt
sign-verify_example =
    sign-verify plain request secret (canonical_payload request) (pos 200) (pos 300) signed refl
      (omega arith)

verify_media_url-IsServable_example :
    (IsServable plain media secret (pos 150) 600
      → verify_media_url plain media secret (pos 150) 600 ≡ ok tt)
    × (verify_media_url plain media secret (pos 150) 600 ≡ ok tt
        → IsServable plain media secret (pos 150) 600)
verify_media_url-IsServable_example = verify_media_url-IsServable plain media secret (pos 150) 600
