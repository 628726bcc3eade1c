-- ===== src/Examples/Policies.antt =====
-- Watermark settings and a second revision of a tenant's site policy.
use g7mediabooster.Base.{
  ◌≡◌, refl, Bool, true, false, [], ◌∷◌, none, some, ok, Bytes, codes, eq_bytes, select_where,
  if◌then◌else◌, arith,
}
use g7mediabooster.Ports.{from_secs}
use g7mediabooster.Policies.{
  StoredWatermarkPolicy, bottom_right, SitePolicySnapshot, PublishPolicyOutcome,
}
use g7mediabooster.Policies.Settings.{AreStorable, normalized_settings-injective}
use g7mediabooster.Store.{PolicyRow, Store}
use g7mediabooster.Store.Policies.{policy_row, is_admissible, publish_site_policy}
use g7mediabooster.Store.Policies.Log.{
  IsNumbered, IsSequential, IsExtended, history, append_log, seen_by,
  publish_site_policy-refines-append_log,
}
use g7mediabooster.Examples.Queues.{two_jobs}

abbrev pub digest : Bytes
digest = codes "0123456789abcdef0123456789abcdef0123456789abcdef0123456789abcdef"

abbrev logo : StoredWatermarkPolicy
logo = record {
  asset_upload_id = 1;
  object_key = record { value = codes "raw/a/1" };
  byte_len = 1000;
  asset_sha256 = digest;
  position = bottom_right;
  margin_px = 24;
  max_width_percent = 20;
  opacity_percent = 80;
}

logo-IsStorable : AreStorable (some logo)
logo-IsStorable = record {
  id = omega arith;
  key = refl;
  len = omega arith;
  digest = refl;
  margin = omega arith;
}

normalized_settings-injective_example : some logo ≡ some logo
normalized_settings-injective_example =
    normalized_settings-injective (some logo) (some logo) logo-IsStorable logo-IsStorable refl

-- The first revision has no watermark, the second one has the logo.
abbrev first_snapshot : SitePolicySnapshot
first_snapshot = record {
  tenant_id = codes "a";
  schema_version = 1;
  revision = 1;
  issued_at = from_secs 20;
  settings_sha256 = digest;
  watermark = none;
}

abbrev second_snapshot : SitePolicySnapshot
second_snapshot = record first_snapshot { revision = 2; watermark = some logo }

abbrev one_revision : Store
one_revision = record two_jobs { policies = policy_row first_snapshot 20 ∷ [] }

one-IsNumbered :
    (b : Bool) (p : PolicyRow) → p.revision ≡ 1 → IsNumbered 1 (if b then p ∷ [] else [])
one-IsNumbered true p e = (e, tt)
one-IsNumbered false p e = tt

one_revision-IsSequential : IsSequential one_revision
unfolding select_where
one_revision-IsSequential tenant_id =
    one-IsNumbered (eq_bytes (codes "a") tenant_id) (policy_row first_snapshot 20) refl

publish_site_policy-refines-append_log_example :
    (seen_by (codes "a") (publish_site_policy one_revision second_snapshot 30)
      ≡ append_log
          (is_admissible one_revision.uploads (policy_row second_snapshot 30))
          (policy_row second_snapshot 30)
          (history (codes "a") one_revision))
    × ((o : PublishPolicyOutcome) (t : Store)
        → publish_site_policy one_revision second_snapshot 30 ≡ ok (o, t)
        → IsExtended one_revision second_snapshot 30 t)
publish_site_policy-refines-append_log_example =
    publish_site_policy-refines-append_log one_revision second_snapshot 30 one_revision-IsSequential
      (omega arith) (omega arith)
