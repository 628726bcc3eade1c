-- ===== src/Examples/Uploads.antt =====
-- crates/g7mb-application/src/uploads.rs on concrete inputs: part layouts, metadata, raw keys.
use g7mediabooster.Base.{
  ℕ, suc, ◌≤◌, ◌<◌, ◌≡◌, refl, true, List, [], ◌∷◌, none, some, ok, codes, arith, All,
}
use g7mediabooster.Domain.{image, video}
use g7mediabooster.Domain.Keys.{new}
use g7mediabooster.Ports.{CompletedPart}
use g7mediabooster.Uploads.{UploadFileIntent, tenant_is_valid}
use g7mediabooster.Uploads.Parts.{
  div_ceil, expected_part_length, any_part_wrong, validate_completion,
}
use g7mediabooster.Uploads.Parts.Layout.{bytes_of_parts, expected_part_length_tiles}
use g7mediabooster.Uploads.Parts.Completion.{IsComplete, validate_completion-IsComplete}
use g7mediabooster.Uploads.Metadata.{
  validate_file_metadata, IsWellFormed, Distinct, validate_file_metadata-Distinct,
}
use g7mediabooster.Uploads.RawKeys.{UuidText, raw_key, new-raw_key, raw_key_injective}

abbrev pub two_parts : List CompletedPart
two_parts =
    record { part_number = 1; etag = codes "a" } ∷ record { part_number = 2; etag = codes "b" } ∷ []

two_parts_accepted : validate_completion 15 10 two_parts ≡ ok tt
unfolding validate_completion any_part_wrong div_ceil
two_parts_accepted = refl

validate_completion-IsComplete_example :
    (IsComplete 15 10 two_parts → validate_completion 15 10 two_parts ≡ ok tt)
    × (validate_completion 15 10 two_parts ≡ ok tt → IsComplete 15 10 two_parts)
validate_completion-IsComplete_example = validate_completion-IsComplete 15 10 two_parts

few : div_ceil 15 10 ≤ 10000
unfolding div_ceil
few = omega arith

expected_part_length_tiles_example :
    (bytes_of_parts 15 10 (div_ceil 15 10) ≡ 15)
    × ((n : ℕ) → suc n < div_ceil 15 10 → expected_part_length 15 10 (suc n) ≡ some 10)
    × ((m : ℕ) × (expected_part_length 15 10 (div_ceil 15 10) ≡ some m) × (0 < m) × (m ≤ 10))
    × ((n : ℕ) → div_ceil 15 10 < n → expected_part_length 15 10 n ≡ none)
expected_part_length_tiles_example =
    expected_part_length_tiles 15 10 (omega arith) (omega arith) few (omega arith)

abbrev pub photo : UploadFileIntent
photo = record {
  client_ref = codes "a";
  declared_kind = image;
  content_length = 1000;
  content_type_hint = codes "image/png";
}

abbrev pub clip : UploadFileIntent
clip = record {
  client_ref = codes "b";
  declared_kind = video;
  content_length = 2000;
  content_type_hint = codes "video/mp4";
}

validate_file_metadata-Distinct_example :
    (All IsWellFormed (photo ∷ clip ∷ [])
      → Distinct (photo ∷ clip ∷ [])
      → validate_file_metadata (photo ∷ clip ∷ []) ≡ ok tt)
    × (validate_file_metadata (photo ∷ clip ∷ []) ≡ ok tt
        → All IsWellFormed (photo ∷ clip ∷ []) × Distinct (photo ∷ clip ∷ []))
validate_file_metadata-Distinct_example = validate_file_metadata-Distinct (photo ∷ clip ∷ [])

-- One text for every identifier: the shape is all that the theorems rely on.
abbrev pub nil_uuid : UuidText
nil_uuid = record {
  show = λ id. codes "00000000-0000-0000-0000-000000000000";
  show_length = λ id. refl;
  show_bytes = λ id. refl;
}

tenant_is_accepted : tenant_is_valid (codes "t1") ≡ true
unfolding tenant_is_valid
tenant_is_accepted = refl

new-raw_key_example :
    new (raw_key nil_uuid (codes "t1") 7) ≡ ok (record { value = raw_key nil_uuid (codes "t1") 7 })
new-raw_key_example = new-raw_key nil_uuid (codes "t1") 7 tenant_is_accepted

raw_key_injective_example : (codes "t1" ≡ codes "t1") × (nil_uuid.show 7 ≡ nil_uuid.show 7)
raw_key_injective_example =
    raw_key_injective nil_uuid (codes "t1") (codes "t1") 7 7 tenant_is_accepted tenant_is_accepted
      refl
