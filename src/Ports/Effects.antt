-- ===== src/Ports/Effects.antt =====
-- The monad of fallible operations on the state of the world, for `async fn … -> Result`.
use g7mediabooster.Base.{Result, ok, err, Bool, true, false}

abbrev pub Effect : Type 0 → Type 0 → Type 0 → Type 0
Effect W E A = W → Result E A × W

abbrev pub after : {W E A B : Type 0} → Result E A × W → (A → Effect W E B) → Result E B × W
after (ok a, w) f = f a w
after (err e, w) f = (err e, w)

infixl 5 ◌>>=◌ ◌>>◌
abbrev pub ◌>>=◌ : {W E A B : Type 0} → Effect W E A → (A → Effect W E B) → Effect W E B
◌>>=◌ m f w = after (m w) f

abbrev pub ◌>>◌ : {W E B : Type 0} → Effect W E (Unit {0}) → Effect W E B → Effect W E B
◌>>◌ m k w = after (m w) (λ _. k)

abbrev pub done : {W E A : Type 0} → A → Effect W E A
done a w = (ok a, w)

abbrev pub fail : {W E A : Type 0} → E → Effect W E A
fail e w = (err e, w)

-- A pure result in an effect.
abbrev pub lift : {W E A : Type 0} → Result E A → Effect W E A
lift r w = (r, w)

abbrev pub fail_if : {W E : Type 0} → Bool → E → Effect W E (Unit {0})
fail_if true e w = (err e, w)
fail_if false e w = (ok tt, w)

-- `map_err(f)`, which `?` applies too.
abbrev pub convert : {E F A W : Type 0} → (E → F) → Result E A × W → Result F A × W
convert f (ok a, w) = (ok a, w)
convert f (err e, w) = (err (f e), w)

abbrev pub map_failure : {W E F A : Type 0} → (E → F) → Effect W E A → Effect W F A
map_failure f m w = convert f (m w)

-- The result without its failure: `Ok` or `Err` as a value.
abbrev pub attempt_of : {W E A : Type 0} → Result E A × W → Result E (Result E A) × W
attempt_of (r, w) = (ok r, w)

abbrev pub attempt : {W E A : Type 0} → Effect W E A → Effect W E (Result E A)
attempt m w = attempt_of (m w)

-- `match f().await`: the answer, a failure included, as a value.
abbrev pub answer_of : {W E F A : Type 0} → Result E A × W → Result F (Result E A) × W
answer_of (r, w) = (ok r, w)

abbrev pub answer : {W E F A : Type 0} → Effect W E A → Effect W F (Result E A)
answer m w = answer_of (m w)

-- An operation at the time that the world's clock shows.
abbrev pub at_time : {W T E A : Type 0} → (W → T) → (T → Effect W E A) → Effect W E A
at_time clock f w = f (clock w) w
