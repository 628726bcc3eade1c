-- ===== src/Examples/Inventories.antt =====
-- The inventory of a provider with one owned and one orphaned object.
use g7mediabooster.Base.{
  inl, inr, ◌+◌, ◌≡◌, refl, ap, ◌∙◌, Bool, true, false, not, List, [], ◌∷◌, none, Result, ok, err,
  Bytes, codes, eq_bytes, eq_bytes_eq, any, select_where, All, Bool-cases, arith, find_where,
  update_where, map,
}
use g7mediabooster.Domain.Keys.{ObjectKey}
use g7mediabooster.Ports.{from_secs, unix_timestamp, ObjectStore, not_found, ListedObject}
use g7mediabooster.Inventory.{
  raw, derivative, prune, InventoryObject, InventoryReconcileResult, InventoryRepositoryError,
  default_inventory_policy, OrphanCandidate,
}
use g7mediabooster.Inventory.Service.{InventoryRepository, InventoryService, run_once}
use g7mediabooster.Inventory.Pruning.{KeptLaws, DeletionKeeps, only_unknown_is_deleted}
use g7mediabooster.Store.{OrphanRow, OrphanState, Store}
use g7mediabooster.Store.Inventory.{
  reconcile_inventory_page, reconcile_all, reconcile_one, suspect, upsert_orphan, forget_orphan,
  is_inventory_key_known,
}
use g7mediabooster.Store.Inventory.Grace.{IsOld, reconcile_inventory_page-IsOld}
use g7mediabooster.Examples.Queues.{two_jobs}

-- The keys of a bucket; the keys that rows own do not change.
abbrev pub Bucket : Type 0
Bucket = List Bytes

abbrev owned : Bytes
owned = codes "raw/a/1"

abbrev orphan : Bytes
orphan = codes "raw/b/2"

abbrev is_owned : Bytes → Bool
is_owned key = eq_bytes key owned

abbrev pub holds : Bytes → Bucket → Bool
holds key = any (λ k. eq_bytes k key)

abbrev pub without : Bytes → Bucket → Bucket
without key = select_where (λ k. not (eq_bytes k key))

abbrev listed : Bytes → ListedObject
listed key = record { key = key; content_length = 5 }

abbrev pub bucket_provider : ObjectStore Bucket
bucket_provider = record {
  presign_get = λ q w. (err not_found, w);
  download_to = λ q w. (err not_found, w);
  put_file = λ q w. (err not_found, w);
  list_objects = λ q w. (ok (record { objects = map listed w; next_start_after = none }), w);
  presign_put = λ q w. (err not_found, w);
  create_multipart = λ q w. (err not_found, w);
  presign_part = λ q w. (err not_found, w);
  complete_multipart = λ q w. (err not_found, w);
  abort_multipart = λ q w. (err not_found, w);
  head = λ k w. (err not_found, w);
  delete = λ k w. (ok tt, without k.value w);
}

-- Every object that is not owned is eligible at once.
abbrev candidate_of : InventoryObject → OrphanCandidate
candidate_of object = record { key = object.key; content_length = object.content_length }

abbrev repository_of : InventoryRepository Bucket
repository_of = record {
  inventory_cursor = λ n w. (ok none, w);
  reconcile_inventory_page = λ n objects now before w.
      (ok (record { known = 0; suspected = 0; eligible = map candidate_of objects }), w);
  is_inventory_key_known = λ n key w. (ok (is_owned key.value), w);
  forget_orphan = λ n key w. (ok tt, w);
  complete_orphan_deletion = λ n key now w. (ok tt, w);
  fail_orphan_deletion = λ n key code now w. (ok tt, w);
  save_inventory_cursor = λ n next now w. (ok tt, w);
}

abbrev service : InventoryService Bucket
service = record {
  raw_store = bucket_provider;
  derivative_store = bucket_provider;
  repository = repository_of;
  policy = default_inventory_policy;
  now_utc = λ w. from_secs 1000000;
}

-- The owned object is there.
abbrev HasOwned : Bucket → Type 0
HasOwned w = holds owned w ≡ true

abbrev laws : KeptLaws service HasOwned
laws = record {
  lists = elim [ raw ↦ λ q w k. k | derivative ↦ λ q w k. k ];
  reads = λ n w k. k;
  reconciles = λ n objects now before w k. k;
  checks = λ n key w k. k;
  forgets = λ n key w k. k;
  completes = λ n key now w k. k;
  fails = λ n key code now w k. k;
  saves = λ n next now w k. k;
}

-- A key that is not owned is not the owned one.
without-holds :
    (key : Bytes) (w : Bucket)
    → is_owned key ≡ false
    → holds owned w ≡ true
    → holds owned (without key w) ≡ true
unfolding select_where
without-holds key [] other h = cc
without-holds key (k ∷ ks) other h = elim (Bool-cases (eq_bytes k key)) [
  | inl same ↦
      let missed : eq_bytes k owned ≡ false = ap is_owned (eq_bytes_eq k key same) ∙ other in
      rw same (without-holds key ks other (ground (arith, h, missed)))
  | inr kept ↦ rw kept (ground (arith, h, without-holds key ks other))
]

unknown :
    (key : Bytes)
    → ◌≡◌ {A = Result InventoryRepositoryError Bool} (ok (is_owned key)) (ok false)
    → is_owned key ≡ false
unknown key e = cc

deletes : DeletionKeeps service HasOwned
deletes raw key w e k = without-holds key.value w (unknown key.value e) k
deletes derivative key w e k = without-holds key.value w (unknown key.value e) k

only_unknown_is_deleted_example : HasOwned (run_once service prune (owned ∷ orphan ∷ [])).1
only_unknown_is_deleted_example =
    only_unknown_is_deleted service HasOwned laws prune (λ e. deletes) (owned ∷ orphan ∷ []) refl

-- A suspect that was first seen at second 10, found again at second 200000.
abbrev key_of : Bytes → ObjectKey
key_of k = record { value = k }

abbrev suspect_row : OrphanRow
suspect_row = record {
  namespace = raw;
  object_key = key_of orphan;
  content_length = 5;
  first_seen_at = 10;
  last_seen_at = 10;
  state = OrphanState.suspected;
  delete_attempts = 0;
  last_error_code = none;
  deleted_at = none;
}

abbrev one_suspect : Store
one_suspect = record two_jobs { orphans = suspect_row ∷ [] }

abbrev page : List InventoryObject
page = record { key = key_of orphan; content_length = 5 } ∷ []

abbrev page_result : InventoryReconcileResult
page_result = record {
  known = 0;
  suspected = 0;
  eligible = record { key = key_of orphan; content_length = 5 } ∷ [];
}

abbrev after_page : Store
after_page = record two_jobs { orphans = record suspect_row { last_seen_at = 200000 } ∷ [] }

reconciled :
    reconcile_inventory_page one_suspect raw page (from_secs 200000) (from_secs 100000)
    ≡ ok (page_result, after_page)
unfolding reconcile_inventory_page reconcile_all reconcile_one suspect upsert_orphan forget_orphan
    is_inventory_key_known find_where update_where
reconciled = refl

reconcile_inventory_page-IsOld_example :
    (0 + 0 + 1 ≡ 1)
    × All (IsOld raw (unix_timestamp (from_secs 100000)) one_suspect) page_result.eligible
    × (after_page.uploads ≡ one_suspect.uploads)
    × (after_page.derivatives ≡ one_suspect.derivatives)
reconcile_inventory_page-IsOld_example =
    reconcile_inventory_page-IsOld raw one_suspect after_page page (from_secs 200000)
      (from_secs 100000) page_result (omega arith) reconciled
