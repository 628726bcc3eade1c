-- ===== src/Store/Reservations/Admission.antt =====
-- `save_batch` admits only what the capacity allows.
use g7mediabooster.Base.{
  ℕ, ◌+◌, ◌≤◌, ◌≡◌, refl, subst, inl, inr, Bool, true, false, List, [], ◌∷◌, Option, some, ok,
  Result-cases, Bytes, arith, eq_bytes, eq_bytes_eq, sum_by, length, count_where, Bool-cases,
  Option-cases, if◌then◌else◌,
}
use g7mediabooster.Domain.{UploadId}
use g7mediabooster.Uploads.{UploadReservation, UploadBatchReservation, UploadCapacityPolicy}
use g7mediabooster.Store.{UploadRow, Store}
use g7mediabooster.Store.Reservations.{
  usage_of, tenant_usage_of, is_active, is_active_of, fits, capacity_allows, has_room, batch_bytes,
  new_upload, with_batch, insert_uploads, save_batch,
}
use g7mediabooster.Store.Reservations.Usage.{
  insert_uploads-sum, insert_uploads-IsAccounted, insert_uploads-kept,
}
use g7mediabooster.Store.Processing.{upload_at}
use g7mediabooster.Store.Moves.Accounts.{IsAccounted, IsSameUsage-IsAccounted}
use g7mediabooster.Store.Moves.Capacity.{IsWithin}

batch_bytes-sum :
    (total n : ℕ) (us : List UploadReservation)
    → batch_bytes total us ≡ some n
    → n ≡ total + sum_by (λ (u : UploadReservation). u.expected_size_bytes) us
unfolding batch_bytes
batch_bytes-sum total n [] h = ground arith
batch_bytes-sum total n (u ∷ us) h =
    ground (arith, h, batch_bytes-sum (total + u.expected_size_bytes) n us)

count-sum :
    (q : UploadRow → Bool) (us : List UploadRow)
    → count_where q us ≡ sum_by (λ u. if q u then 1 else 0) us
unfolding count_where
count-sum q [] = refl
count-sum q (u ∷ us) = omega (arith, count-sum q us)

sum-ones : {A : Type 0} (us : List A) → sum_by (λ (u : A). 1) us ≡ length us
sum-ones [] = refl
sum-ones (u ∷ us) = omega (arith, sum-ones us)

sum-zeros : {A : Type 0} (us : List A) → sum_by (λ (u : A). 0) us ≡ 0
sum-zeros [] = refl
sum-zeros (u ∷ us) = omega (arith, sum-zeros us)

-- What an admitted batch passed.
pub record IsAdmitted (batch : UploadBatchReservation) (c : UploadCapacityPolicy) (s s' : Store)
    : Type 0 where
  pub global : count_where is_active s.uploads + length batch.uploads ≤ c.max_active_global
  pub tenant :
      count_where (is_active_of batch.tenant_id) s.uploads + length batch.uploads
      ≤ c.max_active_per_tenant
  pub total : ℕ
  pub sum : batch_bytes 0 batch.uploads ≡ some total
  pub bytes : s.reserved_global + total ≤ c.max_reserved_bytes_global
  pub tenant_bytes : s.reserved_by_tenant batch.tenant_id + total ≤ c.max_reserved_bytes_per_tenant
  pub base : Store
  pub base_uploads : base.uploads ≡ s.uploads
  pub base_global : base.reserved_global ≡ s.reserved_global
  pub base_tenant : base.reserved_by_tenant ≡ s.reserved_by_tenant
  pub inserted : insert_uploads batch batch.uploads base ≡ ok s'

-- The four bounds of `capacity_allows`.
pub capacity_allows-bounds :
    (global tenant global_bytes tenant_bytes uploads bytes : ℕ) (c : UploadCapacityPolicy)
    → capacity_allows global tenant global_bytes tenant_bytes uploads bytes c ≡ ok true
    → (global + uploads ≤ c.max_active_global)
      × (tenant + uploads ≤ c.max_active_per_tenant)
      × (global_bytes + bytes ≤ c.max_reserved_bytes_global)
      × (tenant_bytes + bytes ≤ c.max_reserved_bytes_per_tenant)
unfolding capacity_allows fits
capacity_allows-bounds global tenant global_bytes tenant_bytes uploads bytes c h =
    (ground (arith, h), ground (arith, h), ground (arith, h), ground (arith, h))

save_batch-inserts :
    (batch : UploadBatchReservation) (c : UploadCapacityPolicy) (s s' : Store) (total : ℕ)
    → save_batch batch c s ≡ ok s'
    → batch_bytes 0 batch.uploads ≡ some total
    → has_room s batch.tenant_id (length batch.uploads) total c ≡ ok true
    → insert_uploads batch batch.uploads (with_batch batch total s) ≡ ok s'
unfolding save_batch
save_batch-inserts batch c s s' total h e room = ground (arith, h, e, room)

save_batch-room :
    (batch : UploadBatchReservation) (c : UploadCapacityPolicy) (s s' : Store) (total : ℕ)
    → save_batch batch c s ≡ ok s'
    → batch_bytes 0 batch.uploads ≡ some total
    → has_room s batch.tenant_id (length batch.uploads) total c ≡ ok true
unfolding save_batch
save_batch-room batch c s s' total h e =
    elim (Result-cases (has_room s batch.tenant_id (length batch.uploads) total c)) [
      | inl (true, room) ↦ room
      | inl (false, room) ↦ ground (arith, h, e, room)
      | inr (_, room) ↦ ground (arith, h, e, room)
    ]

save_batch-total :
    (batch : UploadBatchReservation) (c : UploadCapacityPolicy) (s s' : Store)
    → save_batch batch c s ≡ ok s'
    → (total : ℕ) × (batch_bytes 0 batch.uploads ≡ some total)
unfolding save_batch
save_batch-total batch c s s' h = elim (Option-cases (batch_bytes 0 batch.uploads)) [
  | inl none_e ↦ ground (arith, h, none_e)
  | inr (total, e) ↦ (total, e)
]

pub save_batch-IsAdmitted :
    (batch : UploadBatchReservation) (c : UploadCapacityPolicy) (s s' : Store)
    → save_batch batch c s ≡ ok s'
    → IsAdmitted batch c s s'
unfolding has_room
save_batch-IsAdmitted batch c s s' h =
    let (total, e) = save_batch-total batch c s s' h in
    let room = save_batch-room batch c s s' total h e in
    let (global, tenant, bytes, tenant_bytes) =
      capacity_allows-bounds (count_where is_active s.uploads)
        (count_where (is_active_of batch.tenant_id) s.uploads) s.reserved_global
        (s.reserved_by_tenant batch.tenant_id) (length batch.uploads) total c room in
    record {
      global = global;
      tenant = tenant;
      total = total;
      sum = e;
      bytes = bytes;
      tenant_bytes = tenant_bytes;
      base = with_batch batch total s;
      base_uploads = refl;
      base_global = refl;
      base_tenant = refl;
      inserted = save_batch-inserts batch c s s' total h e room;
    }

module _ (batch : UploadBatchReservation) (c : UploadCapacityPolicy) (s s' : Store)
    (i : IsAdmitted batch c s s') where
  grown :
      (m : UploadRow → ℕ) (k : UploadReservation → ℕ)
      → ((u : UploadReservation) (session : Option Bytes) → m (new_upload batch u session) ≡ k u)
      → sum_by m s'.uploads ≡ sum_by m s.uploads + sum_by k batch.uploads
  grown m k known =
      subst (λ us. sum_by m s'.uploads ≡ sum_by m us + sum_by k batch.uploads) i.base_uploads
        (insert_uploads-sum m k batch batch.uploads i.base known i.inserted)

  grown_count :
      (q : UploadRow → Bool) (b : Bool)
      → ((u : UploadReservation) (session : Option Bytes) → q (new_upload batch u session) ≡ b)
      → count_where q s'.uploads
        ≡ count_where q s.uploads
          + sum_by (λ (u : UploadReservation). if b then 1 else 0) batch.uploads
  grown_count q b known = omega (
    arith,
    count-sum q s'.uploads,
    count-sum q s.uploads,
    grown (λ u. if q u then 1 else 0) (λ u. if b then 1 else 0)
        λ u session. rw (known u session) refl,
  )

  total-sum : i.total ≡ sum_by (λ (u : UploadReservation). u.expected_size_bytes) batch.uploads
  total-sum = omega (arith, batch_bytes-sum 0 i.total batch.uploads i.sum)

  -- Another tenant's measures are the same, and this one's are bounded.
  tenant_count :
      (tenant : Bytes)
      → count_where (is_active_of tenant) s.uploads ≤ c.max_active_per_tenant
      → count_where (is_active_of tenant) s'.uploads ≤ c.max_active_per_tenant
  tenant_count tenant h = elim (Bool-cases (eq_bytes batch.tenant_id tenant)) [
    | inl same ↦
        let now = grown_count (is_active_of tenant) true λ u session. ground (arith, same) in
        let bound =
          subst
            (λ t.
              count_where (is_active_of t) s.uploads + length batch.uploads
              ≤ c.max_active_per_tenant)
            (eq_bytes_eq batch.tenant_id tenant same) i.tenant in
        omega (arith, now, sum-ones batch.uploads, bound)
    | inr other ↦
        let now = grown_count (is_active_of tenant) false λ u session. ground (arith, other) in
        omega (arith, now, sum-zeros batch.uploads, h)
  ]

  tenant_sum :
      (tenant : Bytes)
      → IsAccounted s
      → sum_by (tenant_usage_of tenant) s.uploads ≤ c.max_reserved_bytes_per_tenant
      → sum_by (tenant_usage_of tenant) s'.uploads ≤ c.max_reserved_bytes_per_tenant
  tenant_sum tenant a h = elim (Bool-cases (eq_bytes batch.tenant_id tenant)) [
    | inl same ↦
        let now =
          grown (tenant_usage_of tenant) (λ u. u.expected_size_bytes)
            λ u session. ground (arith, same) in
        let bound =
          subst (λ t. s.reserved_by_tenant t + i.total ≤ c.max_reserved_bytes_per_tenant)
            (eq_bytes_eq batch.tenant_id tenant same) i.tenant_bytes in
        omega (arith, now, total-sum, a.by_tenant tenant, bound)
    | inr other ↦
        let now = grown (tenant_usage_of tenant) (λ u. 0) λ u session. ground (arith, other) in
        omega (arith, now, sum-zeros batch.uploads, h)
  ]

  -- The four measures after a batch.
  inserted-IsWithin : IsAccounted s → IsWithin c s → IsWithin c s'
  inserted-IsWithin a h = record {
    uploads =
        omega
          (arith, grown_count is_active true (λ u session. refl), sum-ones batch.uploads, i.global);
    tenant_uploads = λ tenant. tenant_count tenant (h.tenant_uploads tenant);
    bytes = omega (
      arith,
      grown usage_of (λ u. u.expected_size_bytes) (λ u session. refl),
      total-sum,
      a.global,
      i.bytes,
    );
    tenant_bytes = λ tenant. tenant_sum tenant a (h.tenant_bytes tenant);
  }

-- A batch that is saved keeps the uploads within the capacity it is saved under.
pub save_batch-IsWithin :
    (batch : UploadBatchReservation) (c : UploadCapacityPolicy) (s s' : Store)
    → IsAccounted s
    → save_batch batch c s ≡ ok s'
    → IsWithin c s
    → IsWithin c s'
save_batch-IsWithin batch c s s' a h w =
    inserted-IsWithin batch c s s' (save_batch-IsAdmitted batch c s s' h) a w

pub save_batch-IsAccounted :
    (batch : UploadBatchReservation) (c : UploadCapacityPolicy) (s s' : Store)
    → save_batch batch c s ≡ ok s'
    → IsAccounted s
    → IsAccounted s'
save_batch-IsAccounted batch c s s' h a =
    let i = save_batch-IsAdmitted batch c s s' h in
    insert_uploads-IsAccounted batch batch.uploads i.base i.inserted (
      IsSameUsage-IsAccounted
        (record { uploads = i.base_uploads; global = i.base_global; by_tenant = i.base_tenant }) a)

pub save_batch-kept :
    (batch : UploadBatchReservation) (c : UploadCapacityPolicy) (s s' : Store) (id : UploadId)
    (row : UploadRow)
    → save_batch batch c s ≡ ok s'
    → upload_at id s ≡ some row
    → upload_at id s' ≡ some row
save_batch-kept batch c s s' id row h e =
    let i = save_batch-IsAdmitted batch c s s' h in
    insert_uploads-kept batch batch.uploads i.base id row i.inserted (rw i.base_uploads e)
