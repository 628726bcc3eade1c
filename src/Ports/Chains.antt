-- ===== src/Ports/Chains.antt =====
-- Chains of effects that succeed, through which the operations are followed.
use g7mediabooster.Base.{
  ◌≡◌, refl, ◌⊎◌, inl, inr, Bool, true, false, Option, none, some, Result, ok, err, if◌then◌else◌,
  ok_or,
}
use g7mediabooster.Ports.Effects.{Effect, after, done, lift, fail_if, convert}

-- A chain of effects that succeeds goes through its first effect.
pub after-ok :
    {W E A B : Type 0} (m : Result E A × W) (f : A → Effect W E B) {b : B}
    → (after m f).0 ≡ ok b
    → (a : A) × (m ≡ (ok a, m.1)) × (after m f ≡ f a m.1)
after-ok (ok a, w) f h = (a, refl, refl)
after-ok (err e, w) f h = cc

pub fail_if-ok :
    {W E B : Type 0} (b : Bool) (e : E) (k : Effect W E B) (w : W) {x : B}
    → (after (fail_if b e w) (λ _. k)).0 ≡ ok x
    → (b ≡ false) × (after (fail_if b e w) (λ _. k) ≡ k w)
fail_if-ok true e k w h = cc
fail_if-ok false e k w h = (refl, refl)

pub convert-ok :
    {W E F A : Type 0} (f : E → F) (m : Result E A × W) {a : A} {w : W}
    → convert f m ≡ (ok a, w)
    → m ≡ (ok a, w)
convert-ok f (ok a, w) h = cc
convert-ok f (err e, w) h = cc

pub converted-ok :
    {W E F A : Type 0} (f : E → F) (m : Result E A × W) {a : A}
    → (convert f m).0 ≡ ok a
    → m.0 ≡ ok a
converted-ok f (ok a, w) h = cc
converted-ok f (err e, w) h = cc

-- An effect that succeeded, from one world to another.
abbrev pub Ran : {W E A : Type 0} → Effect W E A → W → A → W → Type 0
Ran m w a v = m w ≡ (ok a, v)

-- What a result that succeeds holds.
pub ok_value : {E A : Type 0} {a b : A} → ◌≡◌ {A = Result E A} (ok a) (ok b) → a ≡ b
ok_value e = cc

pub branches :
    {W E B : Type 0} (b : Bool) (m k : Effect W E B) (w : W)
    → ((b ≡ true) × ((if b then m else k) w ≡ m w)) ⊎ ((b ≡ false) × ((if b then m else k) w ≡ k w))
branches true m k w = inl (refl, refl)
branches false m k w = inr (refl, refl)

-- A lookup that found something.
pub looked-ok :
    {W E F A : Type 0} (f : E → F) (missing : F) (m : Result E (Option A) × W) {a : A}
    → (after (convert f m) (λ x. lift (ok_or x missing))).0 ≡ ok a
    → m ≡ (ok (some a), (after (convert f m) (λ x. lift (ok_or x missing))).1)
looked-ok f missing (ok none, w) h = cc
looked-ok f missing (ok (some a), w) h = cc
looked-ok f missing (err e, w) h = cc

-- A last effect that returns nothing.
pub finish-ok :
    {W E F : Type 0} (f : E → F) (m : Result E (Unit {0}) × W)
    → (after (convert f m) (λ _. done tt)).0 ≡ ok tt
    → m ≡ (ok tt, (after (convert f m) (λ _. done tt)).1)
finish-ok f (ok tt, w) h = refl
finish-ok f (err e, w) h = cc
