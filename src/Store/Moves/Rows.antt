-- ===== src/Store/Moves/Rows.antt =====
-- Every upload keeps its row, and its state follows the lifecycle.
use g7mediabooster.Base.{
  ℕ, suc, ◌≡◌, refl, sym, ◌∙◌, subst, inl, inr, Bool, true, List, [], ◌∷◌, ◌++◌, some, arith, ◌==◌,
  find_where, update_where, find_where-update_where, Bool-cases, if◌then◌else◌,
}
use g7mediabooster.Domain.{UploadId, UploadState}
use g7mediabooster.Domain.State.{Lifecycle, here, step}
use g7mediabooster.Store.{UploadRow, Store}
use g7mediabooster.Store.Reservations.{insert_upload_row, update_uploads}
use g7mediabooster.Store.Processing.{upload_at}
use g7mediabooster.Store.Moves.{IsAllowed, Updates, kept, updated, followed}

-- A row and what became of it.
pub record Became (u v : UploadRow) : Type 0 where
  pub tenant : v.tenant_id ≡ u.tenant_id
  pub key : v.object_key ≡ u.object_key
  pub size : v.expected_size_bytes ≡ u.expected_size_bytes
  pub length : ℕ
  pub path : Lifecycle length u.state v.state

pub Became-refl : (u : UploadRow) → Became u u
Became-refl u = record { tenant = refl; key = refl; size = refl; length = 0; path = here }

Lifecycle-append :
    {m n : ℕ} {a b c : UploadState} → Lifecycle m a b → Lifecycle n b c → (k : ℕ) × Lifecycle k a c
Lifecycle-append {n} here q = (n, q)
Lifecycle-append (step h p) q = let (k, r) = Lifecycle-append p q in (suc k, step h r)

pub Became-trans : {u v w : UploadRow} → Became u v → Became v w → Became u w
Became-trans a b =
    let (length, path) = Lifecycle-append a.path b.path in
    record {
      tenant = b.tenant ∙ a.tenant;
      key = b.key ∙ a.key;
      size = b.size ∙ a.size;
      length = length;
      path = path;
    }

IsAllowed-Became : {u v : UploadRow} → IsAllowed u v → Became u v
IsAllowed-Became {u} {v} a = elim a.state [
  | inl same ↦ record {
    tenant = a.tenant;
    key = a.key;
    size = a.size;
    length = 0;
    path = subst (Lifecycle 0 u.state) (sym same) here;
  }
  | inr move ↦ record {
    tenant = a.tenant;
    key = a.key;
    size = a.size;
    length = 1;
    path = step move here;
  }
]

-- The upload is there afterwards, and is what became of it.
abbrev pub Survives : UploadId → UploadRow → Store → Type 0
Survives id u t = (v : UploadRow) × (upload_at id t ≡ some v) × Became u v

update_uploads-Survives :
    (p : UploadRow → Bool) (f : UploadRow → UploadRow) (s : Store) (id : UploadId) (u : UploadRow)
    → ((u : UploadRow) → p u ≡ true → IsAllowed u (f u))
    → upload_at id s ≡ some u
    → Survives id u (update_uploads p f s)
unfolding update_uploads
update_uploads-Survives p f s id u allowed e = elim (Bool-cases (p u)) [
  | inl hit ↦ (f u, row ∙ rw hit, IsAllowed-Became (allowed u hit))
  | inr miss ↦ (u, row ∙ rw miss, Became-refl u)
]
  where
    row :
        find_where (λ (v : UploadRow). v.id == id) (update_where p f s.uploads)
        ≡ some (if p u then f u else u)
    row =
        find_where-update_where (λ (v : UploadRow). v.id == id) p f s.uploads
          (λ v hit. rw (allowed v hit).id)
        ∙ rw e

pub Updates-Survives :
    {s t : Store}
    → Updates s t
    → (id : UploadId) (u : UploadRow) → upload_at id s ≡ some u
    → Survives id u t
Updates-Survives (kept same) id u e = (u, rw same.uploads e, Became-refl u)
Updates-Survives {s} (updated p f allowed) id u e = update_uploads-Survives p f s id u allowed e
Updates-Survives (followed a b) id u e =
    let (v, at, before) = Updates-Survives a id u e in
    let (w, at_end, after) = Updates-Survives b id v at in (w, at_end, Became-trans before after)

find_where-append :
    (p : UploadRow → Bool) (xs ys : List UploadRow) {u : UploadRow}
    → find_where p xs ≡ some u
    → find_where p (xs ++ ys) ≡ some u
unfolding find_where
find_where-append p [] ys e = cc
find_where-append p (x ∷ xs) ys {u} e = ground (arith, find_where-append p xs ys {u = u})

pub insert_upload_row-Survives :
    (row : UploadRow) (s : Store) (id : UploadId) (u : UploadRow)
    → upload_at id s ≡ some u
    → upload_at id (insert_upload_row row s) ≡ some u
unfolding insert_upload_row
insert_upload_row-Survives row s id u e = find_where-append _ s.uploads (row ∷ []) e
