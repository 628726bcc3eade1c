-- ===== src/Domain/Keys/Split.antt =====
-- Splitting a key at its separators, and joining segments again.
use g7mediabooster.Base.{
  ℕ, ◌≡◌, refl, ap, ◌≢◌, Bool, true, not, List, [], ◌∷◌, ◌++◌, Bytes, all, All, ◌==◌, arith, ◌∙◌,
}
use g7mediabooster.Domain.Keys.{split, push_head}

-- Segments with a separator between each two.
abbrev pub join : ℕ → List Bytes → Bytes
join sep [] = []
join sep (s ∷ []) = s
join sep (s ∷ t ∷ r) = s ++ sep ∷ join sep (t ∷ r)

abbrev pub lacks : ℕ → Bytes → Bool
lacks sep = all (λ c. not (c == sep))

pub split-ne-nil : (sep : ℕ) (v : Bytes) → split sep v ≢ []
unfolding split
split-ne-nil sep [] h = cc
split-ne-nil sep (c ∷ cs) h = ground (arith, split-ne-nil sep cs)

join-push_head :
    (sep c : ℕ) (ss : List Bytes) → ss ≢ [] → join sep (push_head c ss) ≡ c ∷ join sep ss
unfolding push_head
join-push_head sep c [] h = absurd (h refl)
join-push_head sep c (s ∷ []) h = refl
join-push_head sep c (s ∷ t ∷ r) h = refl

join-cons_empty : (sep : ℕ) (ss : List Bytes) → ss ≢ [] → join sep ([] ∷ ss) ≡ sep ∷ join sep ss
join-cons_empty sep [] h = absurd (h refl)
join-cons_empty sep (s ∷ r) h = refl

pub join-split : (sep : ℕ) (v : Bytes) → join sep (split sep v) ≡ v
unfolding split
join-split sep [] = refl
join-split sep (c ∷ cs) = ground (
  arith,
  join-split sep cs,
  join-cons_empty sep (split sep cs) (split-ne-nil sep cs),
  join-push_head sep c (split sep cs) (split-ne-nil sep cs),
)

pub split-lacks : (sep : ℕ) (s : Bytes) → lacks sep s ≡ true → split sep s ≡ s ∷ []
unfolding split push_head
split-lacks sep [] h = refl
split-lacks sep (c ∷ cs) h = ground (arith, split-lacks sep cs)

pub split-append :
    (sep : ℕ) (s r : Bytes) → lacks sep s ≡ true → split sep (s ++ sep ∷ r) ≡ s ∷ split sep r
unfolding split push_head
split-append sep [] r h = ground arith
split-append sep (c ∷ cs) r h = ground (arith, split-append sep cs r)

pub split-join :
    (sep : ℕ) (ss : List Bytes)
    → ss ≢ []
    → All (λ s. lacks sep s ≡ true) ss
    → split sep (join sep ss) ≡ ss
split-join sep [] h l = absurd (h refl)
split-join sep (s ∷ []) h l = split-lacks sep s l.0
split-join sep (s ∷ t ∷ r) h l =
    split-append sep s (join sep (t ∷ r)) l.0 ∙ ap (◌∷◌ s) (split-join sep (t ∷ r) (λ e. cc) l.1)
