-- ===== src/Store/Inventory/Grace.antt =====
-- What `reconcile_inventory_page` calls eligible: objects that nothing owns, and that were already
-- suspected before the grace period.
use g7mediabooster.Base.{
  ℕ, ◌+◌, ◌<◌, ◌≡◌, refl, sym, ap, ◌∙◌, subst, inl, inr, Bool, true, false, List, [], ◌∷◌, Result,
  ok, length, length-append, All, All-append, any, leb, if◌then◌else◌, find_where, Bool-cases,
  Option-cases, reject_if, ltb, >>=-eq-ok, arith,
}
use g7mediabooster.Domain.Keys.{ObjectKey}
use g7mediabooster.Ports.{OffsetDateTime, unix_timestamp}
use g7mediabooster.Inventory.{
  StorageNamespace, raw, derivative, InventoryObject, OrphanCandidate, InventoryReconcileResult,
}
use g7mediabooster.Store.{Store}
use g7mediabooster.Store.Inventory.{
  is_orphan, is_live_source, is_live_derivative, is_inventory_key_known, forget_orphan,
  upsert_orphan, first_seen, counted_known, classified, suspect, reconcile_one, reconcile_all,
  reconcile_inventory_page,
}
use g7mediabooster.Store.Inventory.Suspicions.{
  WasSeen, Traces, forget_orphan-Traces, upsert_orphan-Traces,
}

known_same :
    (namespace : StorageNamespace) (s t : Store) (key : ObjectKey)
    → t.uploads ≡ s.uploads
    → t.derivatives ≡ s.derivatives
    → is_inventory_key_known t namespace key ≡ is_inventory_key_known s namespace key
unfolding is_inventory_key_known
known_same raw s t key u d = ap (any (is_live_source key)) u
known_same derivative s t key u d =
    ap (λ us. any (is_live_derivative us key) t.derivatives) u
    ∙ ap (any (is_live_derivative s.uploads key)) d

module _ {A : Type 0} where
  if_true : (b : Bool) (x y : A) {z : A} → b ≡ true → (if b then x else y) ≡ z → x ≡ z
  if_true true x y e h = h
  if_true false x y e h = cc

  if_false : (b : Bool) (x y : A) {z : A} → b ≡ false → (if b then x else y) ≡ z → y ≡ z
  if_false true x y e h = cc
  if_false false x y e h = h

-- What a result that succeeds holds.
ok_parts :
    {E A B : Type 0} {a c : A} {b d : B}
    → ◌≡◌ {A = Result E (A × B)} (ok (a, b)) (ok (c, d))
    → (a ≡ c) × (b ≡ d)
ok_parts e = (cc, cc)

module _ (namespace : StorageNamespace) (before : ℕ) where
  -- What a reconciliation leaves: the same owners, and no older suspicion.
  abbrev IsLater : Store → Store → Type 0
  IsLater s t =
      (t.uploads ≡ s.uploads) × (t.derivatives ≡ s.derivatives) × Traces namespace before s t

  -- A candidate may be deleted: nothing owns it, and it was suspected before the grace period.
  abbrev pub IsOld : Store → OrphanCandidate → Type 0
  IsOld s c = (is_inventory_key_known s namespace c.key ≡ false) × WasSeen namespace before s c.key

  eligible-WasSeen :
      (s : Store) (key : ObjectKey) (observed_at : ℕ)
      → before < observed_at
      → leb (first_seen (find_where (is_orphan namespace key) s.orphans) observed_at) before ≡ true
      → WasSeen namespace before s key
  eligible-WasSeen s key observed_at later h =
      elim (Option-cases (find_where (is_orphan namespace key) s.orphans)) [
        | inl missing ↦ absurd (ground (arith, h, missing))
        | inr (x, there) ↦ (x, there, ground (arith, h, there), ground (arith, h, there))
      ]

  suspect-ok :
      (s t : Store) (object : InventoryObject) (observed_at : ℕ) (r q : InventoryReconcileResult)
      → suspect namespace object observed_at before r s ≡ ok (q, t)
      → (q
          ≡ classified object
              (leb
                (first_seen (find_where (is_orphan namespace object.key) s.orphans) observed_at)
                before)
              r)
        × (t ≡ record s { orphans = upsert_orphan namespace object observed_at s.orphans })
  unfolding suspect
  suspect-ok s t object observed_at r q e = (ground (arith, e), ground (arith, e))

  abbrev total : InventoryReconcileResult → ℕ
  total r = r.known + r.suspected + length r.eligible

  total-classified :
      (object : InventoryObject) (b : Bool) (r : InventoryReconcileResult)
      → total (classified object b r) ≡ total r + 1
  total-classified object true r = omega (
    arith,
    length-append r.eligible
        (record { key = object.key; content_length = object.content_length } ∷ []),
  )
  total-classified object false r = omega arith

  eligible-classified :
      (s : Store) (object : InventoryObject) (b : Bool) (r : InventoryReconcileResult)
      → (b ≡ true → IsOld s (record { key = object.key; content_length = object.content_length }))
      → All (IsOld s) r.eligible
      → All (IsOld s) (classified object b r).eligible
  eligible-classified s object true r h a =
      All-append (IsOld s) r.eligible
        (record { key = object.key; content_length = object.content_length } ∷ []) a (h refl, tt)
  eligible-classified s object false r h a = a

  -- The state of the loop, against the store at the start.
  abbrev IsGoing : Store → ℕ → InventoryReconcileResult → Store → Type 0
  IsGoing s n r t = (total r ≡ n) × IsLater s t × All (IsOld s) r.eligible

  reconcile_one-IsGoing :
      (s t u : Store) (object : InventoryObject) (observed_at n : ℕ)
      (r q : InventoryReconcileResult)
      → before < observed_at
      → IsGoing s n r t
      → reconcile_one namespace object observed_at before r t ≡ ok (q, u)
      → IsGoing s (n + 1) q u
  unfolding reconcile_one forget_orphan
  reconcile_one-IsGoing s t u object observed_at n r q later (counted, (up, de, tr), old) e =
      elim (Bool-cases (is_inventory_key_known t namespace object.key)) [
        | inl known ↦
            let (result, store) =
              ok_parts (if_true (is_inventory_key_known t namespace object.key) _ _ known e) in
            let going : IsGoing s (n + 1) (counted_known r) (forget_orphan t namespace object.key) =
              (
                omega arith,
                (
                  up,
                  de,
                  λ key w. tr key (forget_orphan-Traces namespace before t object.key key w),
                ),
                old,
              ) in
            subst (λ x. IsGoing s (n + 1) x u) result
              (subst (λ y. IsGoing s (n + 1) (counted_known r) y) store going)
        | inr unknown ↦
            let (result, store) =
              suspect-ok t u object observed_at r q
                (if_false (is_inventory_key_known t namespace object.key) _ _ unknown e) in
            let is_eligible : Bool =
              leb (first_seen (find_where (is_orphan namespace object.key) t.orphans) observed_at)
                before in
            let candidate : OrphanCandidate = record {
              key = object.key;
              content_length = object.content_length;
            } in
            let old_candidate : is_eligible ≡ true → IsOld s candidate = λ h. (
              sym (known_same namespace s t object.key up de) ∙ unknown,
              tr object.key (eligible-WasSeen t object.key observed_at later h),
            ) in
            let going : IsGoing s (n + 1) (classified object is_eligible r)
                (record t { orphans = upsert_orphan namespace object observed_at t.orphans }) =
              (
                total-classified object is_eligible r ∙ ap (λ k. k + 1) counted,
                (
                  up,
                  de,
                  λ key w.
                      tr key
                        (upsert_orphan-Traces namespace before t object observed_at later key w),
                ),
                eligible-classified s object is_eligible r old_candidate old,
              ) in
            subst (λ x. IsGoing s (n + 1) x u) (sym result)
              (subst (λ y. IsGoing s (n + 1) (classified object is_eligible r) y) (sym store) going)
      ]

  reconcile_all-IsGoing :
      (s t u : Store) (objects : List InventoryObject) (observed_at n : ℕ)
      (r q : InventoryReconcileResult)
      → before < observed_at
      → IsGoing s n r t
      → reconcile_all namespace objects observed_at before r t ≡ ok (q, u)
      → IsGoing s (n + length objects) q u
  unfolding reconcile_all
  reconcile_all-IsGoing s t u [] observed_at n r q later going e =
      let (result, store) = ok_parts e in
      subst (λ x. IsGoing s (n + 0) x u) result
        (subst (λ y. IsGoing s (n + 0) r y) store
          (subst (λ k. IsGoing s k r t) (omega arith) going))
  reconcile_all-IsGoing s t u (object ∷ objects) observed_at n r q later going e =
      let ((r1, t1), first, rest) =
        >>=-eq-ok (reconcile_one namespace object observed_at before r t) _ e in
      let next = reconcile_one-IsGoing s t t1 object observed_at n r r1 later going first in
      let end = reconcile_all-IsGoing s t1 u objects observed_at (n + 1) r1 q later next rest in
      subst (λ k. IsGoing s k q u) (omega arith) end

-- A page that is reconciled is counted object by object as known, suspected or eligible. An
-- object is eligible only if no upload or derivative that is not deleted owns it, and the table
-- already held it as a suspect, first seen no later than the time before which suspects are
-- eligible, which is earlier than the observation. The uploads and derivatives are the same.
pub reconcile_inventory_page-IsOld :
    (namespace : StorageNamespace) (s t : Store) (objects : List InventoryObject)
    (observed_at eligible_before : OffsetDateTime) (r : InventoryReconcileResult)
    → unix_timestamp eligible_before < unix_timestamp observed_at
    → reconcile_inventory_page s namespace objects observed_at eligible_before ≡ ok (r, t)
    → (r.known + r.suspected + length r.eligible ≡ length objects)
      × All (IsOld namespace (unix_timestamp eligible_before) s) r.eligible
      × (t.uploads ≡ s.uploads)
      × (t.derivatives ≡ s.derivatives)
unfolding reconcile_inventory_page
reconcile_inventory_page-IsOld namespace s t objects observed_at eligible_before r later e =
    let (u, small, loop) = >>=-eq-ok (reject_if (ltb 1000 (length objects)) _) _ e in
    let (counted, (up, de, tr), old) =
      reconcile_all-IsGoing namespace (unix_timestamp eligible_before) s s t objects
        (unix_timestamp observed_at) 0 (record { known = 0; suspected = 0; eligible = [] }) r later
        (refl, (refl, refl, λ key w. w), tt) loop in
    (omega (arith, counted), old, up, de)
