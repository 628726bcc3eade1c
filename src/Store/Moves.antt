-- ===== src/Store/Moves.antt =====
-- The statements of crates/g7mb-persistence-sqlite/src/lib.rs on the table of uploads, as steps:
-- the operations of the store are sequences of them.
pub mod Accounts
pub mod Rows
pub mod Capacity
use g7mediabooster.Base.{
  ℕ, ◌≡◌, refl, ◌⊎◌, inl, inr, Bool, true, false, List, [], ◌∷◌, Bytes, eq_bytes,
}
use g7mediabooster.Domain.{UploadState, created}
use g7mediabooster.Domain.State.{can_transition_to}
use g7mediabooster.Store.{UploadRow, Store}
use g7mediabooster.Store.Reservations.{update_uploads, insert_upload_row}

-- What an update may change of a row: its state only as the lifecycle permits, and never what the
-- upload is.
pub record IsAllowed (u v : UploadRow) : Type 0 where
  pub id : v.id ≡ u.id
  pub tenant : v.tenant_id ≡ u.tenant_id
  pub key : v.object_key ≡ u.object_key
  pub size : v.expected_size_bytes ≡ u.expected_size_bytes
  pub state : (v.state ≡ u.state) ⊎ (can_transition_to u.state v.state ≡ true)

-- The uploads and their usage are the same.
pub record IsSameUsage (s t : Store) : Type 0 where
  pub uploads : t.uploads ≡ s.uploads
  pub global : t.reserved_global ≡ s.reserved_global
  pub by_tenant : t.reserved_by_tenant ≡ s.reserved_by_tenant

-- Updates of the uploads, with whatever happens to the other tables.
pub data Updates : Store → Store → Type 0 where
  kept : {s t : Store} → IsSameUsage s t → Updates s t
  updated :
      {s : Store} (p : UploadRow → Bool) (f : UploadRow → UploadRow)
      → ((u : UploadRow) → p u ≡ true → IsAllowed u (f u))
      → Updates s (update_uploads p f s)
  followed : {s t v : Store} → Updates s t → Updates t v → Updates s v
