-- ===== src/Inventory.antt =====
-- crates/g7mb-application/src/inventory.rs: the inventory of the object store, which finds objects
-- that no upload and no derivative owns.
pub mod Pruning
pub mod Service
use g7mediabooster.Base.{
  ℕ, ◌*◌, Bool, true, false, ◌&&◌, ◌||◌, not, List, [], ◌∷◌, Option, none, some, Result, ok, err,
  reject_if, Bytes, codes, eq_bytes, any, length, ltb, leb, ◌==◌, within,
}
use g7mediabooster.Domain.Keys.{ObjectKey}
use g7mediabooster.Ports.{Duration, from_secs, ListedObject, ObjectStoreError}
use Prim.Native.String.{String}

pub data StorageNamespace : Type 0 where
  raw derivative : StorageNamespace

abbrev pub prefix : StorageNamespace → Bytes
prefix raw = codes "raw/"
prefix derivative = codes "media/"

-- `#[derive(PartialEq)]`.
abbrev pub eq_namespace : StorageNamespace → StorageNamespace → Bool
eq_namespace raw raw = true
eq_namespace derivative derivative = true
eq_namespace _ _ = false

pub record InventoryObject : Type 0 where
  pub key : ObjectKey
  pub content_length : ℕ

pub record OrphanCandidate : Type 0 where
  pub key : ObjectKey
  pub content_length : ℕ

pub record InventoryReconcileResult : Type 0 where
  pub known : ℕ
  pub suspected : ℕ
  pub eligible : List OrphanCandidate

pub data InventoryRepositoryError : Type 0 where
  inventory_repository_error : String → InventoryRepositoryError

pub record InventoryPolicy : Type 0 where
  pub orphan_grace_period : Duration
  pub page_size : ℕ
  pub max_pages_per_namespace : ℕ

abbrev pub default_inventory_policy : InventoryPolicy
default_inventory_policy = record {
  orphan_grace_period = from_secs (48 * 60 * 60);
  page_size = 1000;
  max_pages_per_namespace = 10;
}

unfoldable pub policy_is_valid : InventoryPolicy → Bool
policy_is_valid p =
    leb (from_secs (60 * 60)) p.orphan_grace_period
    && leb p.orphan_grace_period (from_secs (30 * 24 * 60 * 60))
    && within 1 1000 p.page_size
    && within 1 100 p.max_pages_per_namespace

pub data InventoryMode : Type 0 where
  audit prune : InventoryMode

pub record InventoryRunSummary : Type 0 where
  pub pages : ℕ
  pub listed : ℕ
  pub invalid_keys : ℕ
  pub known : ℕ
  pub suspected : ℕ
  pub eligible : ℕ
  pub deleted : ℕ
  pub delete_failed : ℕ
  pub completed_namespaces : ℕ

abbrev pub empty_summary : InventoryRunSummary
empty_summary = record {
  pages = 0;
  listed = 0;
  invalid_keys = 0;
  known = 0;
  suspected = 0;
  eligible = 0;
  deleted = 0;
  delete_failed = 0;
  completed_namespaces = 0;
}

pub data InventoryRunError : Type 0 where
  invalid_policy invalid_duration invalid_page : InventoryRunError
  object_store : ObjectStoreError → InventoryRunError
  repository : InventoryRepositoryError → InventoryRunError

abbrev pub starts_with : Bytes → Bytes → Bool
starts_with [] text = true
starts_with (x ∷ xs) [] = false
starts_with (x ∷ xs) (y ∷ ys) = x == y && starts_with xs ys

-- `a < b` on texts.
abbrev pub before_text : Bytes → Bytes → Bool
before_text [] [] = false
before_text [] (y ∷ ys) = true
before_text (x ∷ xs) [] = false
before_text (x ∷ xs) (y ∷ ys) = ltb x y || (x == y && before_text xs ys)

-- The closure of `validate_cursor`.
abbrev pub is_bad_cursor : StorageNamespace → Option Bytes → Bool
is_bad_cursor namespace none = false
is_bad_cursor namespace (some value) =
    ltb 1024 (length value) || not (starts_with (prefix namespace) value)

unfoldable pub validate_cursor :
    StorageNamespace → Option Bytes → Result InventoryRunError (Unit {0})
validate_cursor namespace cursor = reject_if (is_bad_cursor namespace cursor) invalid_page

-- `windows(2).any(|pair| pair[0].key >= pair[1].key)`.
unfoldable pub out_of_order : List ListedObject → Bool
out_of_order [] = false
out_of_order (a ∷ []) = false
out_of_order (a ∷ b ∷ objects) = not (before_text a.key b.key) || out_of_order (b ∷ objects)

-- `previous.is_some_and(|cursor| key <= cursor)`.
abbrev pub not_after : Option Bytes → Bytes → Bool
not_after none key = false
not_after (some cursor) key = not (before_text cursor key)

abbrev pub is_bad_object : StorageNamespace → Option Bytes → ListedObject → Bool
is_bad_object namespace previous object =
    ltb 1024 (length object.key)
    || not (starts_with (prefix namespace) object.key)
    || not_after previous object.key

-- `objects.last().map(key) == Some(cursor)`.
unfoldable pub is_last : List ListedObject → Bytes → Bool
is_last [] cursor = false
is_last (a ∷ []) cursor = eq_bytes a.key cursor
is_last (a ∷ b ∷ objects) cursor = is_last (b ∷ objects) cursor

abbrev pub is_bad_next : List ListedObject → Option Bytes → Bool
is_bad_next objects none = false
is_bad_next objects (some cursor) = not (is_last objects cursor)

unfoldable pub validate_page :
    StorageNamespace
    → Option Bytes
    → List ListedObject
    → Option Bytes
    → Result InventoryRunError (Unit {0})
unfolding out_of_order is_last
validate_page namespace previous objects next =
    reject_if
      (ltb 1000 (length objects)
        || out_of_order objects
        || any (is_bad_object namespace previous) objects
        || is_bad_next objects next)
      invalid_page
