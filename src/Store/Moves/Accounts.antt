-- ===== src/Store/Moves/Accounts.antt =====
-- The usage tables are the sums over the uploads.
use g7mediabooster.Base.{
  ℕ, ◌+◌, ◌≡◌, refl, inl, inr, Bool, List, [], ◌∷◌, Bytes, arith, sum_by, sum_by-append,
  select_where, update_where, Bool-cases,
}
use g7mediabooster.Store.{UploadRow, Store}
use g7mediabooster.Store.Reservations.{usage_of, tenant_usage_of, insert_upload_row, update_uploads}
use g7mediabooster.Store.Moves.{IsSameUsage, Updates, kept, updated, followed}

-- The usage tables agree with the uploads.
pub record IsAccounted (s : Store) : Type 0 where
  pub global : s.reserved_global ≡ sum_by usage_of s.uploads
  pub by_tenant :
      (tenant : Bytes) → s.reserved_by_tenant tenant ≡ sum_by (tenant_usage_of tenant) s.uploads

-- What an update takes from a sum and adds to it.
update_where-sum :
    (m : UploadRow → ℕ) (p : UploadRow → Bool) (f : UploadRow → UploadRow) (us : List UploadRow)
    → sum_by m (update_where p f us) + sum_by m (select_where p us)
      ≡ sum_by m us + sum_by (λ u. m (f u)) (select_where p us)
unfolding update_where select_where
update_where-sum m p f [] = refl
update_where-sum m p f (u ∷ us) = elim (Bool-cases (p u)) [
  | inl hit ↦ rw hit (omega (arith, update_where-sum m p f us))
  | inr miss ↦ rw miss (omega (arith, update_where-sum m p f us))
]

update_uploads-IsAccounted :
    (p : UploadRow → Bool) (f : UploadRow → UploadRow) (s : Store)
    → IsAccounted s
    → IsAccounted (update_uploads p f s)
unfolding update_uploads
update_uploads-IsAccounted p f s h = record {
  global = omega (arith, h.global, update_where-sum usage_of p f s.uploads);
  by_tenant = λ tenant.
      omega (arith, h.by_tenant tenant, update_where-sum (tenant_usage_of tenant) p f s.uploads);
}

pub insert_upload_row-IsAccounted :
    (u : UploadRow) (s : Store) → IsAccounted s → IsAccounted (insert_upload_row u s)
unfolding insert_upload_row
insert_upload_row-IsAccounted u s h = record {
  global = omega (arith, h.global, sum_by-append usage_of s.uploads (u ∷ []));
  by_tenant = λ tenant.
      omega (arith, h.by_tenant tenant, sum_by-append (tenant_usage_of tenant) s.uploads (u ∷ []));
}

pub IsSameUsage-IsAccounted : {s t : Store} → IsSameUsage s t → IsAccounted s → IsAccounted t
IsSameUsage-IsAccounted same h = record {
  global = rw (same.uploads, same.global) h.global;
  by_tenant = λ tenant. rw (same.uploads, same.by_tenant) (h.by_tenant tenant);
}

pub Updates-IsAccounted : {s t : Store} → Updates s t → IsAccounted s → IsAccounted t
Updates-IsAccounted (kept same) h = IsSameUsage-IsAccounted same h
Updates-IsAccounted {s} (updated p f allowed) h = update_uploads-IsAccounted p f s h
Updates-IsAccounted (followed a b) h = Updates-IsAccounted b (Updates-IsAccounted a h)
