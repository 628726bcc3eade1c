-- ===== src/Uploads/Parts.antt =====
-- crates/g7mb-application/src/uploads.rs: `expected_part_length` and `validate_completion`, the
-- layout of a multipart upload.
pub mod Layout
pub mod Completion
use g7mediabooster.Base.{
  ℕ, suc, ◌+◌, ◌-◌, ◌*◌, ◌/◌, ◌%◌, min, Bool, ◌||◌, ◌&&◌, not, true, false, Option, none, some,
  List, [], ◌∷◌, Result, ok, reject_if, ◌>>=◌, ◌>>◌, Bytes, all, length, is_empty, ltb, leb, ◌==◌,
  if◌then◌else◌, is_ascii_graphic, checked_mul, within,
}
use g7mediabooster.Ports.{CompletedPart}
use g7mediabooster.Uploads.{MultipartControlError, invalid_completion}

-- `u64::div_ceil`, whose divisor is not 0 where it is called.
unfoldable pub div_ceil : ℕ → ℕ → ℕ
div_ceil a b = if a % b == 0 then a / b else a / b + 1

part_after : ℕ → ℕ → Option ℕ → Option ℕ
part_after total_size part_size none = none
part_after total_size part_size (some start) =
    if leb total_size start then none else some (min (total_size - start) part_size)

unfoldable pub expected_part_length : ℕ → ℕ → ℕ → Option ℕ
unfolding part_after
expected_part_length total_size part_size part_number =
    if total_size == 0 || part_size == 0 || part_number == 0 || ltb 10000 part_number
    then none
    else part_after total_size part_size (checked_mul (part_number - 1) part_size)

-- The closure of `any`: whether the part at an index breaks the layout. `u16::try_from` fails
-- above 65535.
unfoldable pub part_is_wrong : ℕ → CompletedPart → Bool
part_is_wrong index part =
    not (part.part_number == index + 1 && leb (index + 1) 65535)
    || is_empty part.etag
    || ltb 1024 (length part.etag)
    || not (all is_ascii_graphic part.etag)

unfoldable pub any_part_wrong : ℕ → List CompletedPart → Bool
unfolding part_is_wrong
any_part_wrong index [] = false
any_part_wrong index (part ∷ parts) = part_is_wrong index part || any_part_wrong (index + 1) parts

unfoldable pub validate_completion :
    ℕ → ℕ → List CompletedPart → Result MultipartControlError (Unit {0})
validate_completion total_size part_size parts = do
  reject_if (total_size == 0 || part_size == 0) invalid_completion
  let expected_count = div_ceil total_size part_size
  reject_if
      (ltb 10000 expected_count || not (length parts == expected_count) || any_part_wrong 0 parts)
      invalid_completion
  ok tt
