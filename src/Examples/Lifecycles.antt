-- ===== src/Examples/Lifecycles.antt =====
-- A cleanup run over a disk with one claimed upload.
use g7mediabooster.Base.{
  ◌≡◌, All, refl, sym, ap, ◌∙◌, inl, inr, Bool, true, false, List, [], ◌∷◌, ◌++◌, none, Result, ok,
  err, Bytes, codes, any, select_where, Bool-cases, ◌==◌, arith, subst,
}
use g7mediabooster.Domain.{UploadId, failed, single_put}
use g7mediabooster.Ports.{from_secs, ObjectStore, not_found}
use g7mediabooster.Ports.Chains.{after-ok}
use g7mediabooster.Store.Cleanup.{
  CleanupCandidate, user_requested, DeletionRequestError, LifecycleRepositoryError,
}
use g7mediabooster.Lifecycle.{
  LifecycleService, LifecycleRepository, LifecycleRunSummary, default_lifecycle_policy,
  valid_identifier, run_once, run_claimed, claim_batch, clean_all, clean_one, settle, give_up,
  cleanup_storage, abort_session, delete_derivatives, purge,
}
use g7mediabooster.Lifecycle.Storage.{StorageLaws, TombstoneKeeps, tombstones_follow_storage}
use g7mediabooster.Lifecycle.Counts.{AreSettled, run_once-counts}
use g7mediabooster.Examples.Inventories.{holds, without}

-- The objects of a provider, and the uploads that are tombstoned.
record Disk : Type 0 where
  pub objects : List Bytes
  pub tombstoned : List UploadId

abbrev raw_key : UploadId → Bytes
raw_key id = codes "raw/" ++ (id ∷ [])

abbrev provider : ObjectStore Disk
provider = record {
  presign_get = λ q w. (err not_found, w);
  download_to = λ q w. (err not_found, w);
  put_file = λ q w. (err not_found, w);
  list_objects = λ q w. (err not_found, w);
  presign_put = λ q w. (err not_found, w);
  create_multipart = λ q w. (err not_found, w);
  presign_part = λ q w. (err not_found, w);
  complete_multipart = λ q w. (err not_found, w);
  abort_multipart = λ q w. (ok tt, w);
  head = λ k w. (err not_found, w);
  delete = λ k w. (ok tt, record w { objects = without k.value w.objects });
}

abbrev candidate : CleanupCandidate
candidate = record {
  tenant_id = codes "a";
  upload_id = 1;
  raw_object_key = record { value = raw_key 1 };
  state = failed;
  transfer = single_put;
  multipart_upload_id = none;
  derivative_keys = record { value = codes "media/1" } ∷ [];
  reason = user_requested;
  attempts = 1;
}

abbrev rows : LifecycleRepository Disk
rows = record {
  request_deletion = λ tenant id now w. (err DeletionRequestError.invalid_tenant, w);
  claim_cleanup_batch =
      λ owner now created rejected lease limit attempts w. (ok (candidate ∷ []), w);
  complete_cleanup = λ id owner now w. (ok tt, record w { tombstoned = id ∷ w.tombstoned });
  fail_cleanup = λ id owner now retry code w. (ok tt, w);
  purge_tombstones = λ before limit w. (ok 0, w);
}

abbrev service : LifecycleService Disk
service = record {
  raw_store = provider;
  derivative_store = provider;
  repository = rows;
  policy = default_lifecycle_policy;
  now_utc = λ w. from_secs 1000000000;
}

abbrev is_tombstoned : UploadId → Disk → Bool
is_tombstoned id w = any (λ i. i == id) w.tombstoned

-- No tombstoned upload has its source.
abbrev IsClean : Disk → Type 0
IsClean w = (id : UploadId) → is_tombstoned id w ≡ true → holds (raw_key id) w.objects ≡ false

-- A claimed candidate has the key of its upload.
abbrev HasKey : CleanupCandidate → Type 0
HasKey c = c.raw_object_key.value ≡ raw_key c.upload_id

without-absent :
    (k key : Bytes) (objects : List Bytes)
    → holds k objects ≡ false
    → holds k (without key objects) ≡ false
unfolding select_where
without-absent k key [] h = refl
without-absent k key (x ∷ xs) h = ground (arith, h, without-absent k key xs)

without-gone : (key : Bytes) (objects : List Bytes) → holds key (without key objects) ≡ false
unfolding select_where
without-gone key [] = refl
without-gone key (x ∷ xs) = ground (arith, without-gone key xs)

only_candidate :
    (cs : List CleanupCandidate)
    → ◌≡◌ {A = Result LifecycleRepositoryError (List CleanupCandidate)}
        (ok (candidate ∷ []))
        (ok cs)
    → candidate ∷ [] ≡ cs
only_candidate cs e = cc

abbrev laws : StorageLaws service IsClean HasKey
laws = record {
  aborts = λ q w k. k;
  deletes_derivative = λ key w k id t. without-absent (raw_key id) key.value w.objects (k id t);
  deletes_raw = λ key w k id t. without-absent (raw_key id) key.value w.objects (k id t);
  claims = λ owner now created rejected lease limit attempts w k. k;
  claims_rows = λ owner now created rejected lease limit attempts w cs k e.
      subst (All HasKey) (only_candidate cs e) (refl, tt);
  fails = λ id owner now retry code w k. k;
  purges = λ before limit w k. k;
}

-- The source of the candidate is the last object that a cleanup without a failure removes.
cleaned :
    (c : CleanupCandidate) (w : Disk)
    → (cleanup_storage service c w).0 ≡ ok tt
    → holds c.raw_object_key.value (cleanup_storage service c w).1.objects ≡ false
unfolding cleanup_storage
cleaned c w h =
    let (u, e1, n1) = after-ok (abort_session service c w) _ h in
    let (x, e2, n2) =
      after-ok (delete_derivatives service c.derivative_keys (abort_session service c w).1) _
        (ap (λ p. p.0) (sym n1) ∙ h) in
    let end = n1 ∙ n2 in
    ap (λ p. holds c.raw_object_key.value p.1.objects) end ∙ without-gone c.raw_object_key.value _

tombstones : TombstoneKeeps service IsClean HasKey
tombstones c owner now w row removed k id t = elim (Bool-cases (c.upload_id == id)) [
  | inl same ↦
      let key : c.raw_object_key.value ≡ raw_key id = row ∙ ap raw_key (ground (arith, same)) in
      subst (λ x. holds x (cleanup_storage service c w).1.objects ≡ false) key (cleaned c w removed)
  | inr other ↦ k id (ground (arith, t, other))
]

abbrev disk : Disk
disk = record { objects = raw_key 1 ∷ codes "media/1" ∷ raw_key 2 ∷ []; tombstoned = [] }

disk-IsClean : IsClean disk
disk-IsClean id t = cc

tombstones_follow_storage_example : IsClean (run_once service (codes "w1") disk).1
tombstones_follow_storage_example =
    tombstones_follow_storage service IsClean HasKey laws tombstones (codes "w1") disk disk-IsClean

abbrev one_completed : LifecycleRunSummary
one_completed = record {
  claimed = 1;
  completed = 1;
  failed = 0;
  dead_lettered = 0;
  tombstones_purged = 0;
}

ran : (run_once service (codes "w1") disk).0 ≡ ok one_completed
unfolding run_once run_claimed claim_batch clean_all clean_one settle give_up cleanup_storage
    abort_session delete_derivatives purge valid_identifier
ran = refl

run_once-counts_example :
    (valid_identifier (codes "w1") 128 ≡ true) × AreSettled service (codes "w1") disk one_completed
run_once-counts_example = run_once-counts service (codes "w1") disk one_completed ran
