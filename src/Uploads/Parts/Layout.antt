-- ===== src/Uploads/Parts/Layout.antt =====
-- The parts of a multipart upload tile the object.
use g7mediabooster.Base.{
  ℕ, zero, suc, ◌+◌, ◌-◌, ◌*◌, ◌≤◌, ◌<◌, min, ◌≡◌, refl, ap, ◌∙◌, Option, none, some, u64_max,
  arith,
}
use native.Mathlib.Decide.{dec_lt}
use native.Mathlib.Nat.{div-add-mod, mul-le-mul_right}
use native.Mathlib.Numerals.{add-one}
use g7mediabooster.Uploads.Parts.{div_ceil, expected_part_length}

abbrev pub part_bytes : Option ℕ → ℕ
part_bytes none = 0
part_bytes (some n) = n

-- The bytes of the parts 1 to n together.
pub bytes_of_parts : ℕ → ℕ → ℕ → ℕ
bytes_of_parts total part zero = 0
bytes_of_parts total part (suc n) =
    bytes_of_parts total part n + part_bytes (expected_part_length total part (suc n))

pub bytes_of_parts-zero : (total part : ℕ) → bytes_of_parts total part 0 ≡ 0
unfolding bytes_of_parts
bytes_of_parts-zero total part = refl

pub bytes_of_parts-add_one :
    (total part n : ℕ)
    → bytes_of_parts total part (n + 1)
      ≡ bytes_of_parts total part n + part_bytes (expected_part_length total part (n + 1))
unfolding bytes_of_parts
bytes_of_parts-add_one total part n = rw add-one

div_ceil-bounds :
    (total part : ℕ)
    → 0 < total
    → 0 < part
    → (total ≤ div_ceil total part * part)
      × (0 < div_ceil total part)
      × ((div_ceil total part - 1) * part < total)
unfolding div_ceil
div_ceil-bounds total part t p = grind (arith, div-add-mod total part)

part_inside :
    (total part n : ℕ)
    → 0 < part
    → n < 10000
    → n * part < total
    → total ≤ u64_max
    → expected_part_length total part (suc n) ≡ some (min (total - n * part) part)
unfolding expected_part_length
part_inside total part n p few inside big = grind arith

part_outside :
    (total part n : ℕ) → total ≤ n * part → expected_part_length total part (suc n) ≡ none
unfolding expected_part_length
part_outside total part n outside = grind arith

bytes_of_parts-min :
    (total part n : ℕ)
    → 0 < part
    → n ≤ 10000
    → total ≤ u64_max
    → bytes_of_parts total part n ≡ min total (n * part)
unfolding bytes_of_parts
bytes_of_parts-min total part zero p few big = omega arith
bytes_of_parts-min total part (suc n) p few big = elim (dec_lt (n * part) total) [
  | yes inside ↦
      rw (part_inside total part n p few inside big)
        (omega (arith, bytes_of_parts-min total part n p (omega arith) big))
  | no outside ↦
      rw (part_outside total part n (omega arith))
        (omega (arith, bytes_of_parts-min total part n p (omega arith) big))
]

part_inside-full :
    (total part n : ℕ)
    → 0 < total
    → 0 < part
    → n < div_ceil total part - 1
    → (n * part < total) × (min (total - n * part) part ≡ part)
part_inside-full total part n t p h =
    let fits : suc n * part ≤ (div_ceil total part - 1) * part =
      mul-le-mul_right part (omega arith) in
    (omega (arith, div_ceil-bounds total part t p), omega (arith, div_ceil-bounds total part t p))

last_part :
    (total part : ℕ)
    → 0 < total
    → 0 < part
    → div_ceil total part ≤ 10000
    → total ≤ u64_max
    → (m : ℕ) × (expected_part_length total part (div_ceil total part) ≡ some m)
      × (0 < m)
      × (m ≤ part)
last_part total part t p few big =
    let before : ℕ = div_ceil total part - 1 in
    let bounds = div_ceil-bounds total part t p in
    let count : div_ceil total part ≡ suc before = omega (arith, bounds) in
    (
      min (total - before * part) part,
      ap (expected_part_length total part) count
          ∙ part_inside total part before p (omega arith) bounds.2 big,
      omega (arith, bounds),
      omega arith,
    )

past_end :
    (total part n : ℕ)
    → 0 < total
    → 0 < part
    → div_ceil total part < n
    → expected_part_length total part n ≡ none
past_end total part zero t p h = absurd (omega arith)
past_end total part (suc n) t p h =
    let fits : div_ceil total part * part ≤ n * part = mul-le-mul_right part (omega arith) in
    part_outside total part n (omega (arith, div_ceil-bounds total part t p))

-- The planned parts of an object tile it. With a size and a part size that are not 0 and 10000
-- parts at most, the parts 1 to ⌈size / part size⌉ together hold exactly the object's bytes; each
-- but the last is a full part, the last holds between one byte and a full part, and no further
-- number is a part. The size is a `u64`.
pub expected_part_length_tiles :
    (total part : ℕ)
    → 0 < total
    → 0 < part
    → div_ceil total part ≤ 10000
    → total ≤ u64_max
    → (bytes_of_parts total part (div_ceil total part) ≡ total)
      × ((n : ℕ)
          → suc n < div_ceil total part
          → expected_part_length total part (suc n) ≡ some part)
      × ((m : ℕ) × (expected_part_length total part (div_ceil total part) ≡ some m)
          × (0 < m)
          × (m ≤ part))
      × ((n : ℕ) → div_ceil total part < n → expected_part_length total part n ≡ none)
expected_part_length_tiles total part t p few big = (
  omega (
    arith,
    bytes_of_parts-min total part (div_ceil total part) p few big,
    div_ceil-bounds total part t p,
  ),
  λ n h.
      let (inside, full) = part_inside-full total part n t p (omega arith) in
      rw (part_inside total part n p (omega arith) inside big) (rw full),
  last_part total part t p few big,
  λ n h. past_end total part n t p h,
)
