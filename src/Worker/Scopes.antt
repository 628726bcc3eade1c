-- ===== src/Worker/Scopes.antt =====
-- The lanes, the reserved disk and the scopes of a validation, and the states that it tells apart.
use g7mediabooster.Base.{
  ℕ, ◌+◌, ◌*◌, ◌≤◌, ◌≡◌, refl, sym, ◌⊎◌, inl, inr, true, ◌||◌, Option, none, some, Result, ok,
  arith,
}
use g7mediabooster.Domain.{
  UploadState, created, uploaded, quarantined, processing, ready, rejected, failed, deleted,
  eq_state,
}
use g7mediabooster.Domain.Media.{ImageWorkClass, heavy, standard, work_class}
use g7mediabooster.Ports.Ends.{ended, same_end}
use g7mediabooster.Worker.{max_watermark_bytes, temp_disk_permit_bytes, temp_disk_permits}
use g7mediabooster.Worker.Parts.{MediaInspection, Lane, heavy_images, videos}
use g7mediabooster.Uploads.Parts.{div_ceil}
use native.Mathlib.Nat.{div-add-mod}
use g7mediabooster.Worker.Source.{finally, lane_of_class, lane_of, temp_reservation}

-- The lane in which an inspected source is transformed: heavy images and videos wait for a permit.
abbrev pub HasLane : MediaInspection → Option Lane → Type 0
HasLane (MediaInspection.image format content_type probe) lane =
    ((work_class probe ≡ heavy) × (lane ≡ some heavy_images))
    ⊎ ((work_class probe ≡ standard) × (lane ≡ none))
HasLane (MediaInspection.video format content_type inspection) lane = lane ≡ some videos

class-lane :
    (c : ImageWorkClass)
    → ((c ≡ heavy) × (lane_of_class c ≡ some heavy_images))
      ⊎ ((c ≡ standard) × (lane_of_class c ≡ none))
class-lane heavy = inl (refl, refl)
class-lane standard = inr (refl, refl)

pub lane_of-HasLane : (i : MediaInspection) → HasLane i (lane_of i)
unfolding work_class
lane_of-HasLane (MediaInspection.image format content_type probe) = class-lane (work_class probe)
lane_of-HasLane (MediaInspection.video format content_type inspection) = refl

pub settled :
    (s : UploadState)
    → (eq_state s rejected || eq_state s ready) ≡ true
    → (s ≡ rejected) ⊎ (s ≡ ready)
settled created h = cc
settled uploaded h = cc
settled quarantined h = cc
settled processing h = cc
settled ready h = inr refl
settled rejected h = inl refl
settled failed h = cc
settled deleted h = cc

pub in_work :
    (s : UploadState)
    → (eq_state s quarantined || eq_state s processing) ≡ true
    → (s ≡ quarantined) ⊎ (s ≡ processing)
in_work created h = cc
in_work uploaded h = cc
in_work quarantined h = inl refl
in_work processing h = inr refl
in_work ready h = cc
in_work rejected h = cc
in_work failed h = cc
in_work deleted h = cc

-- The permits that are reserved are enough for the source, two images and a watermark.
permits-enough :
    (bytes permits : ℕ)
    → temp_disk_permits bytes ≡ some permits
    → bytes ≤ permits * temp_disk_permit_bytes
unfolding temp_disk_permits div_ceil
permits-enough bytes permits h = grind (arith, div-add-mod bytes temp_disk_permit_bytes)

pub reservation-enough :
    (source_bytes max_image_bytes permits : ℕ)
    → temp_reservation source_bytes max_image_bytes ≡ some permits
    → source_bytes + max_image_bytes * 2 + max_watermark_bytes ≤ permits * temp_disk_permit_bytes
unfolding temp_reservation
reservation-enough source_bytes max_image_bytes permits h =
    let total = source_bytes + max_image_bytes * 2 + max_watermark_bytes in
    permits-enough total permits (ground (arith, h))

-- A scope that ends without a failure: where its body ended, and what was dropped there.
pub finally-end :
    {W E A : Type 0} (drop_value : W → W) (r : Result E A × W) {a : A} {v : W}
    → finally drop_value r ≡ (ok a, v)
    → (u : W) × (r ≡ (ok a, u)) × (v ≡ drop_value u)
finally-end drop_value (ok b, u) h =
    let (e, there) = ended h in (u, same_end refl e refl, sym there)
finally-end drop_value (Result.err x, u) h = cc
