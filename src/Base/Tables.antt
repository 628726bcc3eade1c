-- ===== src/Base/Tables.antt =====
-- Tables of the database as lists of rows: what `SELECT`, `UPDATE` and `COUNT(*)` with a `WHERE`
-- clause read and change.
use Prim.Native.Nat.{ℕ, ◌+◌}
use mathlib.Core.Path.{◌≡◌, refl, sym}
use mathlib.Core.Logic.{inl, inr}
use mathlib.Core.Bool.{Bool, true}
use mathlib.Core.Option.{Option, none, some}
use mathlib.Core.Option
use mathlib.Core.List.{List, [], ◌∷◌, Memᴰ}
use native.Mathlib.Omega.{arith}
use g7mediabooster.Base.Tests.{if◌then◌else◌, Bool-cases}
use g7mediabooster.Base.Lists.{sum_by, All, any}

module _ {ℓ} {A : Type ℓ} where
  -- `SELECT … WHERE p LIMIT 1`.
  unfoldable pub find_where : (A → Bool) → List A → Option A
  find_where p [] = none
  find_where p (x ∷ xs) = if p x then some x else find_where p xs

  -- `SELECT … WHERE p`.
  unfoldable pub select_where : (A → Bool) → List A → List A
  select_where p [] = []
  select_where p (x ∷ xs) = let rest = select_where p xs in if p x then x ∷ rest else rest

  -- `UPDATE … SET … WHERE p`.
  unfoldable pub update_where : (A → Bool) → (A → A) → List A → List A
  update_where p f [] = []
  update_where p f (x ∷ xs) = (if p x then f x else x) ∷ update_where p f xs

  -- `COUNT(*) … WHERE p`, and the rows that a statement affects.
  unfoldable pub count_where : (A → Bool) → List A → ℕ
  count_where p [] = 0
  count_where p (x ∷ xs) = (if p x then 1 else 0) + count_where p xs

  -- Every row of an updated table satisfies what the update keeps.
  pub All-update_where {κ} :
      {P : A → Type κ} (p : A → Bool) (f : A → A) (xs : List A)
      → ((x : A) → p x ≡ true → P x → P (f x))
      → All P xs
      → All P (update_where p f xs)
  unfolding update_where
  All-update_where p f [] keep h = tt
  All-update_where p f (x ∷ xs) keep h = elim (Bool-cases (p x)) [
    | inl hit ↦ rw hit (keep x hit h.0, All-update_where p f xs keep h.1)
    | inr miss ↦ rw miss (h.0, All-update_where p f xs keep h.1)
  ]

  -- A row that is found satisfies the test and whatever all rows satisfy.
  pub find_where-All {κ} :
      (P : A → Type κ) (p : A → Bool) (xs : List A) {x : A}
      → All P xs
      → find_where p xs ≡ some x
      → (p x ≡ true) × P x
  unfolding find_where
  find_where-All P p [] h e = cc
  find_where-All P p (y ∷ xs) {x} h e = elim (Bool-cases (p y)) [
    | inl hit ↦ let same : y ≡ x = ground (arith, e, hit) in (rw (← same) hit, rw (← same) h.0)
    | inr miss ↦ find_where-All P p xs h.1 (ground (arith, e, miss))
  ]

  -- A row that is found is in the table and satisfies the test.
  pub find_where-Memᴰ :
      (p : A → Bool) (xs : List A) {x : A} → find_where p xs ≡ some x → Memᴰ x xs × (p x ≡ true)
  unfolding find_where
  find_where-Memᴰ p [] e = cc
  find_where-Memᴰ p (y ∷ xs) {x} e = elim (Bool-cases (p y)) [
    | inl hit ↦ let same : y ≡ x = ground (arith, e, hit) in (Memᴰ.head (sym same), rw (← same) hit)
    | inr miss ↦ let (m, h) = find_where-Memᴰ p xs (ground (arith, e, miss)) in (Memᴰ.tail m, h)
  ]

  -- A test that holds of some item holds of one in the list.
  pub any-Memᴰ : (p : A → Bool) (xs : List A) → any p xs ≡ true → (x : A) × Memᴰ x xs × (p x ≡ true)
  any-Memᴰ p [] e = cc
  any-Memᴰ p (y ∷ xs) e = elim (Bool-cases (p y)) [
    | inl hit ↦ (y, Memᴰ.head refl, hit)
    | inr miss ↦ let (x, m, h) = any-Memᴰ p xs (ground (arith, e, miss)) in (x, Memᴰ.tail m, h)
  ]

  -- A test that an update cannot change finds the updated row.
  pub find_where-update_where :
      (q p : A → Bool) (f : A → A) (xs : List A)
      → ((x : A) → p x ≡ true → q (f x) ≡ q x)
      → find_where q (update_where p f xs)
        ≡ Option.map (λ x. if p x then f x else x) (find_where q xs)
  unfolding find_where update_where
  find_where-update_where q p f [] keep = refl
  find_where-update_where q p f (x ∷ xs) keep =
      ground (arith, keep x, find_where-update_where q p f xs keep)

  pub All-select_where {κ} :
      (P : A → Type κ) (p : A → Bool) (xs : List A) → All P xs → All P (select_where p xs)
  unfolding select_where
  All-select_where P p [] h = tt
  All-select_where P p (x ∷ xs) h = elim (Bool-cases (p x)) [
    | inl hit ↦ rw hit (h.0, All-select_where P p xs h.1)
    | inr miss ↦ rw miss (All-select_where P p xs h.1)
  ]

  -- What an update does to a sum over the rows.
  pub sum_by-update_where :
      (m : A → ℕ) (p : A → Bool) (f : A → A) (xs : List A)
      → ((x : A) → p x ≡ true → m (f x) ≡ m x)
      → sum_by m (update_where p f xs) ≡ sum_by m xs
  unfolding update_where
  sum_by-update_where m p f [] keep = refl
  sum_by-update_where m p f (x ∷ xs) keep =
      ground (arith, keep x, sum_by-update_where m p f xs keep)
