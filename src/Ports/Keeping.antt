-- ===== src/Ports/Keeping.antt =====
-- Rules for what every call of a chain of effects keeps.
use g7mediabooster.Base.{◌≡◌, refl, Bool, true, false, Result, ok, err, if◌then◌else◌}
use g7mediabooster.Ports.Effects.{Effect, after, convert, lift}

module _ {W : Type 0} (Kept : W → Type 0) where
  -- A call of a port, its failure converted, and what follows it.
  pub call-Kept :
      {E F A B : Type 0} (f : E → F) (m : Result E A × W) (next : A → Effect W F B)
      → Kept m.1
      → ((a : A) → m.0 ≡ ok a → Kept (next a m.1).1)
      → Kept (after (convert f m) next).1
  call-Kept f (ok a, w) next k follows = follows a refl
  call-Kept f (err e, w) next k follows = k

  pub convert-Kept :
      {E F A : Type 0} (f : E → F) (m : Result E A × W) → Kept m.1 → Kept (convert f m).1
  convert-Kept f (ok a, w) k = k
  convert-Kept f (err e, w) k = k

  -- A pure check, and what follows it.
  pub lift-Kept :
      {E A B : Type 0} (r : Result E A) (w : W) (next : A → Effect W E B)
      → Kept w
      → ((a : A) → Kept (next a w).1)
      → Kept (after (lift r w) next).1
  lift-Kept (ok a) w next k follows = follows a
  lift-Kept (err e) w next k follows = k

  pub after-Kept :
      {E A B : Type 0} (m : Result E A × W) (next : A → Effect W E B)
      → Kept m.1
      → ((a : A) (w : W) → Kept w → Kept (next a w).1)
      → Kept (after m next).1
  after-Kept (ok a, w) next k follows = follows a w k
  after-Kept (err e, w) next k follows = k

  -- The same, where what follows needs to know the answer.
  pub answered-Kept :
      {E A B : Type 0} (m : Result E A × W) (next : A → Effect W E B)
      → Kept m.1
      → ((a : A) → m.0 ≡ ok a → Kept (next a m.1).1)
      → Kept (after m next).1
  answered-Kept (ok a, w) next k follows = follows a refl
  answered-Kept (err e, w) next k follows = k

  pub if-Kept :
      {E A : Type 0} (b : Bool) (m n : Effect W E A) (w : W)
      → (b ≡ true → Kept (m w).1)
      → (b ≡ false → Kept (n w).1)
      → Kept ((if b then m else n) w).1
  if-Kept true m n w h k = h refl
  if-Kept false m n w h k = k refl
