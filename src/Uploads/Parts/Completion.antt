-- ===== src/Uploads/Parts/Completion.antt =====
-- The part lists that `validate_completion` accepts.
use g7mediabooster.Base.{
  ℕ, zero, suc, ◌+◌, ◌≤◌, ◌<◌, ◌≡◌, refl, ap, true, false, List, [], ◌∷◌, map, Bytes, all, All,
  length, ok, is_empty, is_ascii_graphic, u64_max, arith, sum_by,
}
use native.Mathlib.Nat.{add-zero, zero-add}
use g7mediabooster.Ports.{CompletedPart}
use g7mediabooster.Uploads.Parts.{
  div_ceil, expected_part_length, any_part_wrong, validate_completion,
}
use g7mediabooster.Uploads.Parts.Layout.{
  part_bytes, bytes_of_parts, bytes_of_parts-zero, bytes_of_parts-add_one,
  expected_part_length_tiles,
}

-- The numbers from k + 1 on, as many as n.
abbrev pub numbers : ℕ → ℕ → List ℕ
numbers k zero = []
numbers k (suc n) = (k + 1) ∷ numbers (k + 1) n

-- An ETag that may be sent to the provider.
pub record IsEtag (etag : Bytes) : Type 0 where
  pub some_byte : is_empty etag ≡ false
  pub short : length etag ≤ 1024
  pub graphic : all is_ascii_graphic etag ≡ true

abbrev pub part_numbers : List CompletedPart → List ℕ
part_numbers = map (λ p. p.part_number)

abbrev pub Etags : List CompletedPart → Type 0
Etags = All (λ p. IsEtag p.etag)

-- The list names the parts 1 to ⌈size / part size⌉ in this order, each with an ETag.
pub record IsComplete (total part : ℕ) (parts : List CompletedPart) : Type 0 where
  pub some_bytes : 0 < total
  pub some_part_bytes : 0 < part
  pub few : div_ceil total part ≤ 10000
  pub in_order : part_numbers parts ≡ numbers 0 (div_ceil total part)
  pub etags : Etags parts

any_part_wrong-ok :
    (k : ℕ) (parts : List CompletedPart)
    → any_part_wrong k parts ≡ false
    → (part_numbers parts ≡ numbers k (length parts)) × Etags parts
unfolding any_part_wrong
any_part_wrong-ok k [] h = (refl, tt)
any_part_wrong-ok k (p ∷ ps) h = ground (arith, any_part_wrong-ok (k + 1) ps)

any_part_wrong_of :
    (k n : ℕ) (parts : List CompletedPart)
    → part_numbers parts ≡ numbers k n
    → Etags parts
    → k + n ≤ 65535
    → (any_part_wrong k parts ≡ false) × (length parts ≡ n)
unfolding any_part_wrong
any_part_wrong_of k zero [] e t b = (refl, refl)
any_part_wrong_of k (suc n) [] e t b = cc
any_part_wrong_of k zero (p ∷ ps) e t b = cc
any_part_wrong_of k (suc n) (p ∷ ps) e t b = ground (arith, any_part_wrong_of (k + 1) n ps)

-- The completion list is accepted exactly when the sizes are not 0, the object has 10000 parts at
-- most, and the list names the parts 1 to ⌈size / part size⌉ in this order, none missing and none
-- twice, each with an ETag of 1 to 1024 graphic bytes.
pub validate_completion-IsComplete :
    (total part : ℕ) (parts : List CompletedPart)
    → (IsComplete total part parts → validate_completion total part parts ≡ ok tt)
      × (validate_completion total part parts ≡ ok tt → IsComplete total part parts)
unfolding validate_completion
validate_completion-IsComplete total part parts = (
  λ c. ground (arith, any_part_wrong_of 0 (div_ceil total part) parts c.in_order c.etags),
  λ h. ground (arith, any_part_wrong-ok 0 parts),
)

-- The bytes that the plan assigns to a list of part numbers.
abbrev pub planned_bytes : ℕ → ℕ → List ℕ → ℕ
planned_bytes total part = sum_by (λ n. part_bytes (expected_part_length total part n))

planned_bytes-numbers :
    (total part k n : ℕ)
    → bytes_of_parts total part k + planned_bytes total part (numbers k n)
      ≡ bytes_of_parts total part (k + n)
planned_bytes-numbers total part k zero = simp add-zero
planned_bytes-numbers total part k (suc n) =
    let shift : k + suc n ≡ k + 1 + n = omega arith in
    rw shift (
      omega
        (arith, bytes_of_parts-add_one total part k, planned_bytes-numbers total part (k + 1) n))

-- The parts of an accepted completion list hold, by the plan under which each was signed, exactly
-- the bytes of the reservation. The size is a `u64`.
pub validate_completion-planned_bytes :
    (total part : ℕ) (parts : List CompletedPart)
    → total ≤ u64_max
    → validate_completion total part parts ≡ ok tt
    → planned_bytes total part (part_numbers parts) ≡ total
validate_completion-planned_bytes total part parts big h =
    let c = (validate_completion-IsComplete total part parts).1 h in
    let tiles = expected_part_length_tiles total part c.some_bytes c.some_part_bytes c.few big in
    rw c.in_order (
      omega (
        arith,
        planned_bytes-numbers total part 0 (div_ceil total part),
        ap (bytes_of_parts total part) (zero-add (div_ceil total part)),
        tiles.0,
        bytes_of_parts-zero total part,
      ))
