-- ===== src/Store/Moves/Capacity.antt =====
-- The capacity of the deployment and of its tenants: what the operations of the store do to it.
use g7mediabooster.Base.{
  ℕ, ◌≤◌, ◌≡◌, subst, inl, inr, Bool, true, false, List, [], ◌∷◌, Bytes, arith, sum_by, count_where,
  update_where,
}
use g7mediabooster.Domain.{UploadState, deleted, eq_state}
use g7mediabooster.Domain.State.{can_transition_to}
use g7mediabooster.Uploads.{UploadCapacityPolicy}
use g7mediabooster.Store.{UploadRow, Store}
use g7mediabooster.Store.Reservations.{
  usage_of, tenant_usage_of, is_active_state, is_active, is_active_of, update_uploads,
}
use g7mediabooster.Store.Moves.{IsAllowed, IsSameUsage, Updates, kept, updated, followed}

-- The uploads are within a capacity: the active ones are counted, the bytes of all that are not
-- deleted are summed up, over all tenants and for each of them.
pub record IsWithin (c : UploadCapacityPolicy) (s : Store) : Type 0 where
  pub uploads : count_where is_active s.uploads ≤ c.max_active_global
  pub tenant_uploads :
      (tenant : Bytes) → count_where (is_active_of tenant) s.uploads ≤ c.max_active_per_tenant
  pub bytes : sum_by usage_of s.uploads ≤ c.max_reserved_bytes_global
  pub tenant_bytes :
      (tenant : Bytes) → sum_by (tenant_usage_of tenant) s.uploads ≤ c.max_reserved_bytes_per_tenant

active-before :
    (a b : UploadState)
    → can_transition_to a b ≡ true
    → is_active_state b ≡ true
    → is_active_state a ≡ true
unfolding can_transition_to
active-before a b h k = ground arith

deleted-final : (a b : UploadState) → can_transition_to a b ≡ true → eq_state a deleted ≡ false
unfolding can_transition_to
deleted-final a b h = ground arith

IsAllowed-active : {u v : UploadRow} → IsAllowed u v → is_active v ≡ true → is_active u ≡ true
IsAllowed-active {u} {v} a h = elim a.state [
  | inl same ↦ subst (λ s. is_active_state s ≡ true) same h
  | inr move ↦ active-before u.state v.state move h
]

IsAllowed-usage : {u v : UploadRow} → IsAllowed u v → usage_of v ≤ usage_of u
IsAllowed-usage {u} {v} a = elim a.state [
  | inl same ↦ rw (same, a.size) (omega arith)
  | inr move ↦ ground (arith, deleted-final u.state v.state move, a.size)
]

count-update_where :
    (q p : UploadRow → Bool) (f : UploadRow → UploadRow) (us : List UploadRow)
    → ((u : UploadRow) → p u ≡ true → q (f u) ≡ true → q u ≡ true)
    → count_where q (update_where p f us) ≤ count_where q us
unfolding count_where update_where
count-update_where q p f [] h = omega arith
count-update_where q p f (u ∷ us) h = ground (arith, h u, count-update_where q p f us h)

sum-update_where :
    (m : UploadRow → ℕ) (p : UploadRow → Bool) (f : UploadRow → UploadRow) (us : List UploadRow)
    → ((u : UploadRow) → p u ≡ true → m (f u) ≤ m u)
    → sum_by m (update_where p f us) ≤ sum_by m us
unfolding update_where
sum-update_where m p f [] h = omega arith
sum-update_where m p f (u ∷ us) h = ground (arith, h u, sum-update_where m p f us h)

update_uploads-IsWithin :
    (c : UploadCapacityPolicy) (p : UploadRow → Bool) (f : UploadRow → UploadRow) (s : Store)
    → ((u : UploadRow) → p u ≡ true → IsAllowed u (f u))
    → IsWithin c s
    → IsWithin c (update_uploads p f s)
unfolding update_uploads
update_uploads-IsWithin c p f s allowed h = record {
  uploads = omega (
    arith,
    h.uploads,
    count-update_where is_active p f s.uploads λ u hit. IsAllowed-active (allowed u hit),
  );
  tenant_uploads = λ tenant. omega (
    arith,
    h.tenant_uploads tenant,
    count-update_where (is_active_of tenant) p f s.uploads λ u hit active.
        ground (arith, (allowed u hit).tenant, IsAllowed-active (allowed u hit), active),
  );
  bytes = omega (
    arith,
    h.bytes,
    sum-update_where usage_of p f s.uploads λ u hit. IsAllowed-usage (allowed u hit),
  );
  tenant_bytes = λ tenant. omega (
    arith,
    h.tenant_bytes tenant,
    sum-update_where (tenant_usage_of tenant) p f s.uploads
        λ u hit. ground (arith, (allowed u hit).tenant, IsAllowed-usage (allowed u hit)),
  );
}

pub IsSameUsage-IsWithin :
    (c : UploadCapacityPolicy) {s t : Store} → IsSameUsage s t → IsWithin c s → IsWithin c t
IsSameUsage-IsWithin c same h = record {
  uploads = rw same.uploads h.uploads;
  tenant_uploads = λ tenant. rw same.uploads (h.tenant_uploads tenant);
  bytes = rw same.uploads h.bytes;
  tenant_bytes = λ tenant. rw same.uploads (h.tenant_bytes tenant);
}

-- An update frees capacity or leaves it.
pub Updates-IsWithin :
    (c : UploadCapacityPolicy) {s t : Store} → Updates s t → IsWithin c s → IsWithin c t
Updates-IsWithin c (kept same) h = IsSameUsage-IsWithin c same h
Updates-IsWithin c {s} (updated p f allowed) h = update_uploads-IsWithin c p f s allowed h
Updates-IsWithin c (followed a b) h = Updates-IsWithin c b (Updates-IsWithin c a h)
