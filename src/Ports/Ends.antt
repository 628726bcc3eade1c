-- ===== src/Ports/Ends.antt =====
-- Chains of effects that succeed, followed to the world in which they end.
use g7mediabooster.Base.{
  if◌then◌else◌, ◌⊎◌, inl, inr, ◌≡◌, refl, ◌∙◌, Bool, true, false, Result, ok, err,
}
use g7mediabooster.Ports.Effects.{Effect, after, lift, fail_if, convert}
use g7mediabooster.Ports.Chains.{Ran, convert-ok}

-- A call of a port that a chain began with, and the rest of the chain after it.
abbrev pub Onward : {W E F A B : Type 0} → Effect W E A → (A → Effect W F B) → W → B → W → Type 0
Onward {W = W} {A = A} m k w b u = (a : A) × (v : W) × Ran m w a v × Ran (k a) v b u

onward :
    {W E F A B : Type 0} (f : E → F) (m : Effect W E A) (k : A → Effect W F B) (w : W)
    (r : Result E A × W) {b : B} {u : W}
    → m w ≡ r
    → after (convert f r) k ≡ (ok b, u)
    → Onward m k w b u
onward f m k w (ok a, v) e h = (a, v, e, h)
onward f m k w (err x, v) e h = cc

pub called-end :
    {W E F A B : Type 0} (f : E → F) (m : Effect W E A) (k : A → Effect W F B) (w : W) {b : B}
    {u : W}
    → after (convert f (m w)) k ≡ (ok b, u)
    → Onward m k w b u
called-end f m k w h = onward f m k w (m w) refl h

chained :
    {W E A B : Type 0} (m : Effect W E A) (k : A → Effect W E B) (w : W) (r : Result E A × W)
    {b : B} {u : W}
    → m w ≡ r
    → after r k ≡ (ok b, u)
    → Onward m k w b u
chained m k w (ok a, v) e h = (a, v, e, h)
chained m k w (err x, v) e h = cc

pub chained-end :
    {W E A B : Type 0} (m : Effect W E A) (k : A → Effect W E B) (w : W) {b : B} {u : W}
    → after (m w) k ≡ (ok b, u)
    → Onward m k w b u
chained-end m k w h = chained m k w (m w) refl h

pub last-end :
    {W E F A : Type 0} (f : E → F) (m : Effect W E A) (w : W) {a : A} {u : W}
    → convert f (m w) ≡ (ok a, u)
    → Ran m w a u
last-end f m w h = convert-ok f (m w) h

pub lifted-end :
    {W E A B : Type 0} (r : Result E A) (k : A → Effect W E B) (w : W) {b : B} {u : W}
    → after (lift r w) k ≡ (ok b, u)
    → (a : A) × (r ≡ ok a) × Ran (k a) w b u
lifted-end (ok a) k w h = (a, refl, h)
lifted-end (err e) k w h = cc

pub passed-end :
    {W E B : Type 0} (b : Bool) (e : E) (k : Effect W E B) (w : W) {x : B} {u : W}
    → after (fail_if b e w) (λ _. k) ≡ (ok x, u)
    → (b ≡ false) × Ran k w x u
passed-end true e k w h = cc
passed-end false e k w h = (refl, h)

-- What a chain that ends at once holds, and where.
pub ended :
    {W E A : Type 0} {a b : A} {w u : W}
    → ◌≡◌ {A = Result E A × W} (ok a, w) (ok b, u)
    → (a ≡ b) × (w ≡ u)
ended e = (cc, cc)

-- An answer and its world under other names of them.
pub same_end :
    {W E A : Type 0} {r : Result E A × W} {a b : A} {v u : W}
    → r ≡ (ok a, v)
    → a ≡ b
    → v ≡ u
    → r ≡ (ok b, u)
same_end h e there = h ∙ λ i. (ok (e i), there i)

-- The branch that was taken.
pub branched :
    {W E B : Type 0} (b : Bool) (m k : Effect W E B) (w : W) {r : Result E B × W}
    → (if b then m else k) w ≡ r
    → ((b ≡ true) × (m w ≡ r)) ⊎ ((b ≡ false) × (k w ≡ r))
branched true m k w h = inl (refl, h)
branched false m k w h = inr (refl, h)
