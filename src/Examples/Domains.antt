-- ===== src/Examples/Domains.antt =====
-- crates/g7mb-domain/src/lib.rs on concrete inputs.
use g7mediabooster.Base.{◌+◌, ◌≤◌, ◌≡◌, refl, List, [], ◌∷◌, some, ok, codes, map, arith}
use g7mediabooster.Domain.{
  image, video, UploadTransfer, created, uploaded, quarantined, processing, ready,
}
use g7mediabooster.Domain.State.{
  Lifecycle, here, step, rank, rank-Lifecycle, before_ready, ready-Lifecycle, can_transition_to,
  transition_all, transition_to,
}
use g7mediabooster.Domain.Keys.{ObjectKey, new}
use g7mediabooster.Domain.Keys.Grammar.{IsKey, new-IsKey}
use g7mediabooster.Domain.Batch.{UploadCandidate, default, plan, transfer_of}
use g7mediabooster.Domain.Batch.Bounds.{Fits, plan-Fits}
use g7mediabooster.Domain.Media.{ImageProbe, default_image_limits, validate_image, VideoProbe}
use g7mediabooster.Domain.Media.Limits.{ImageFits, validate_image-ImageFits}

-- An upload that is published, and deleted later.
published_path : Lifecycle 4 created ready
unfolding can_transition_to
published_path =
    step {t = uploaded} refl
      (step {t = quarantined} refl (step {t = processing} refl (step {t = ready} refl here)))

rank-Lifecycle_example : rank created + 4 ≤ rank ready
rank-Lifecycle_example = rank-Lifecycle published_path

ready-Lifecycle_example : before_ready created ≡ some 4
ready-Lifecycle_example = ready-Lifecycle published_path

-- The refused transition to ready is passed over.
skips_are_refused : transition_all created (uploaded ∷ ready ∷ quarantined ∷ []) ≡ quarantined
unfolding transition_all transition_to can_transition_to
skips_are_refused = refl

new-IsKey_example :
    (IsKey (codes "raw/t1/a") → new (codes "raw/t1/a") ≡ ok (record { value = codes "raw/t1/a" }))
    × ((key : ObjectKey)
        → new (codes "raw/t1/a") ≡ ok key
        → IsKey (codes "raw/t1/a") × (key.value ≡ codes "raw/t1/a"))
new-IsKey_example = new-IsKey (codes "raw/t1/a")

abbrev two_candidates : List UploadCandidate
two_candidates =
    record { declared_kind = image; byte_len = 1000 }
    ∷ record { declared_kind = video; byte_len = 2000 }
    ∷ []

plan-Fits_example :
    (Fits default two_candidates
      → plan default two_candidates ≡ ok (map (transfer_of default) two_candidates))
    × ((ts : List UploadTransfer)
        → plan default two_candidates ≡ ok ts
        → Fits default two_candidates × (ts ≡ map (transfer_of default) two_candidates))
plan-Fits_example = plan-Fits default two_candidates (omega arith)

abbrev photo : ImageProbe
photo = record { byte_len = 5000; width = 800; height = 600; frames = 1 }

validate_image-ImageFits_example :
    (ImageFits default_image_limits photo → validate_image default_image_limits photo ≡ ok tt)
    × (validate_image default_image_limits photo ≡ ok tt → ImageFits default_image_limits photo)
validate_image-ImageFits_example = validate_image-ImageFits default_image_limits photo (omega arith)

abbrev clip : VideoProbe
clip = record {
  byte_len = 9000;
  duration_ms = 1000;
  width = 640;
  height = 360;
  video_streams = 1;
  total_streams = 2;
}
