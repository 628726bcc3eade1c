-- ===== src/Store/Inventory/Suspicions.antt =====
-- How a reconciliation changes the suspicions of the orphan table: none becomes older.
use g7mediabooster.Base.{
  ℕ, ◌≤◌, ◌<◌, ◌≡◌, refl, sym, ap, ◌∙◌, inl, inr, Bool, true, false, ◌&&◌, not, List, [], ◌∷◌, ◌++◌,
  Option, none, some, eq_bytes, eq_bytes_iff, if◌then◌else◌, find_where, select_where, update_where,
  find_where-update_where, is_some, Bool-cases, Option-cases, arith,
}
use g7mediabooster.Domain.Keys.{ObjectKey}
use g7mediabooster.Inventory.{StorageNamespace, eq_namespace, InventoryObject}
use g7mediabooster.Store.{OrphanRow, Store}
use g7mediabooster.Store.Inventory.{
  is_suspected, is_orphan, forget_orphan, new_orphan, seen_again, upsert_orphan,
}

module _ {A : Type 0} where
  find_where-append :
      (q : A → Bool) (xs ys : List A)
      → find_where q (xs ++ ys)
        ≡ elim (find_where q xs) as (λ _. Option A) [ none ↦ find_where q ys | some x ↦ some x ]
  unfolding find_where
  find_where-append q [] ys = refl
  find_where-append q (x ∷ xs) ys = elim (Bool-cases (q x)) [
    | inl hit ↦ rw hit
    | inr miss ↦ rw miss (find_where-append q xs ys)
  ]

  -- Rows that the test cannot find are dropped.
  find_where-select_where :
      (q r : A → Bool) (xs : List A)
      → ((x : A) → q x ≡ true → r x ≡ true)
      → find_where q (select_where r xs) ≡ find_where q xs
  unfolding find_where select_where
  find_where-select_where q r [] h = refl
  find_where-select_where q r (x ∷ xs) h = ground (arith, h x, find_where-select_where q r xs h)

  -- All rows that the test finds are dropped.
  find_where-dropped :
      (q r : A → Bool) (xs : List A)
      → ((x : A) → q x ≡ true → r x ≡ false)
      → find_where q (select_where r xs) ≡ none
  unfolding find_where select_where
  find_where-dropped q r [] h = refl
  find_where-dropped q r (x ∷ xs) h = ground (arith, h x, find_where-dropped q r xs h)

module _ (namespace : StorageNamespace) (before : ℕ) where
  -- The object was already suspected at a time.
  abbrev pub WasSeen : Store → ObjectKey → Type 0
  WasSeen s key =
      (o : OrphanRow) × (find_where (is_orphan namespace key) s.orphans ≡ some o)
      × (is_suspected o.state ≡ true)
      × (o.first_seen_at ≤ before)

  -- No object is suspected longer than it was.
  abbrev pub Traces : Store → Store → Type 0
  Traces s t = (key : ObjectKey) → WasSeen t key → WasSeen s key

  same_key :
      (k j : ObjectKey) (o : OrphanRow)
      → eq_bytes k.value j.value ≡ false
      → is_orphan namespace k o ≡ true
      → is_orphan namespace j o ≡ false
  same_key k j o differ h = elim (Bool-cases (eq_bytes o.object_key.value j.value)) [
    | inl same ↦
        let a : o.object_key.value ≡ k.value =
          (eq_bytes_iff o.object_key.value k.value).0 (ground (arith, h)) in
        let b : o.object_key.value ≡ j.value = (eq_bytes_iff o.object_key.value j.value).0 same in
        let c = (eq_bytes_iff k.value j.value).1 (sym a ∙ b) in cc
    | inr other ↦ ground (arith, other)
  ]

  both_keys :
      (k j : ObjectKey) (o : OrphanRow)
      → eq_bytes k.value j.value ≡ true
      → is_orphan namespace k o ≡ true
      → not (is_orphan namespace j o) ≡ false
  both_keys k j o same h =
      let e = (eq_bytes_iff k.value j.value).0 same in
      let there : (eq_namespace o.namespace namespace && eq_bytes o.object_key.value j.value)
          ≡ true =
        rw (← e) h in
      ap not there

  no_row : {q : Option OrphanRow} {o : OrphanRow} → q ≡ some o → q ≡ none → ⊥
  no_row a b = cc

  pub forget_orphan-Traces : (s : Store) (j : ObjectKey) → Traces s (forget_orphan s namespace j)
  unfolding forget_orphan
  forget_orphan-Traces s j key (o, found, suspected, old) =
      elim (Bool-cases (eq_bytes key.value j.value)) [
        | inl same ↦
            let hidden =
              find_where-dropped (is_orphan namespace key) (λ x. not (is_orphan namespace j x))
                s.orphans (λ x h. both_keys key j x same h) in
            absurd (no_row found hidden)
        | inr differ ↦ (
          o,
          sym (
                find_where-select_where (is_orphan namespace key)
                  (λ x. not (is_orphan namespace j x)) s.orphans
                  (λ x h. ap not (same_key key j x differ h)))
              ∙ found,
          suspected,
          old,
        )
      ]

  -- The row that an update leaves comes from a row that was suspected as long.
  updated_row :
      (p : Bool) (object : InventoryObject) (observed_at : ℕ) (x o : OrphanRow)
      → before < observed_at
      → (if p then seen_again object observed_at x else x) ≡ o
      → is_suspected o.state ≡ true
      → o.first_seen_at ≤ before
      → (is_suspected x.state ≡ true) × (x.first_seen_at ≤ before)
  updated_row p object observed_at x o later e suspected old =
      (ground (arith, e), ground (arith, e))

  updated-Traces :
      (s : Store) (object : InventoryObject) (observed_at : ℕ)
      → before < observed_at
      → Traces s (record s {
        orphans =
            update_where (is_orphan namespace object.key) (seen_again object observed_at) s.orphans;
      })
  updated-Traces s object observed_at later key (o, found, suspected, old) =
      let p = is_orphan namespace object.key in
      let moved =
        find_where-update_where (is_orphan namespace key) p (seen_again object observed_at)
          s.orphans (λ x h. refl) in
      elim (Option-cases (find_where (is_orphan namespace key) s.orphans)) [
        | inl missing ↦ absurd (no_row found (moved ∙ rw missing))
        | inr (x, there) ↦
            let back : (if p x then seen_again object observed_at x else x) ≡ o =
              cc (found, moved, there) in
            let (a, b) = updated_row (p x) object observed_at x o later back suspected old in
            (x, there, a, b)
      ]

  last_row : (b : Bool) (n o : OrphanRow) → (if b then some n else none) ≡ some o → n ≡ o
  last_row true n o e = cc
  last_row false n o e = cc

  inserted-Traces :
      (s : Store) (object : InventoryObject) (observed_at : ℕ)
      → before < observed_at
      → Traces s (record s { orphans = s.orphans ++ new_orphan namespace object observed_at ∷ [] })
  unfolding find_where
  inserted-Traces s object observed_at later key (o, found, suspected, old) =
      let new_row = new_orphan namespace object observed_at in
      let moved = find_where-append (is_orphan namespace key) s.orphans (new_row ∷ []) in
      elim (Option-cases (find_where (is_orphan namespace key) s.orphans)) [
        | inl missing ↦
            let inserted : find_where (is_orphan namespace key) (s.orphans ++ new_row ∷ [])
                ≡ (if is_orphan namespace key new_row then some new_row else none) =
              moved ∙ rw missing in
            let same =
              last_row (is_orphan namespace key new_row) new_row o (sym inserted ∙ found) in
            let seen : observed_at ≡ o.first_seen_at =
              ap (λ (r : OrphanRow). r.first_seen_at) same in
            absurd (omega (arith, seen))
        | inr (x, there) ↦
            let here : find_where (is_orphan namespace key) (s.orphans ++ new_row ∷ []) ≡ some x =
              moved ∙ rw there in
            (o, there ∙ sym here ∙ found, suspected, old)
      ]

  pub upsert_orphan-Traces :
      (s : Store) (object : InventoryObject) (observed_at : ℕ)
      → before < observed_at
      → Traces s (record s { orphans = upsert_orphan namespace object observed_at s.orphans })
  unfolding upsert_orphan
  upsert_orphan-Traces s object observed_at later =
      elim (Bool-cases (is_some (find_where (is_orphan namespace object.key) s.orphans))) [
        | inl there ↦ rw there (updated-Traces s object observed_at later)
        | inr missing ↦ rw missing (inserted-Traces s object observed_at later)
      ]
  -- The candidate of a suspicion was seen before.
