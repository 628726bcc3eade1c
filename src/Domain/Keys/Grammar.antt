-- ===== src/Domain/Keys/Grammar.antt =====
-- The keys that `ObjectKey::new` accepts, described by a grammar of path segments.
use g7mediabooster.Base.{
  ℕ, ◌≤◌, ◌≡◌, refl, ap, ◌∙◌, subst, ◌≢◌, Bool, true, false, ◌||◌, List, [], ◌∷◌, Bytes, codes, all,
  any, All, length, ◌==◌, eq_bytes_iff, is_empty, ok, Bool-cases, inl, inr, arith, all-append,
  is_ascii_alphanumeric,
}
use g7mediabooster.Domain.Keys.{
  ObjectKey, split, push_head, is_key_byte, is_unsafe_segment, starts_with_byte, new,
}
use g7mediabooster.Domain.Keys.Split.{split-ne-nil, join, lacks, join-split, split-join}

-- A byte of a segment: a letter, a digit, or one of `-_.`.
abbrev pub is_segment_byte : ℕ → Bool
is_segment_byte b = is_ascii_alphanumeric b || b == b'-' || b == b'_' || b == b'.'

-- A segment names something below its parent: it is not empty, `.` or `..`.
pub record IsSegment (s : Bytes) : Type 0 where
  pub named : s ≢ []
  pub not_current : s ≢ codes "."
  pub not_parent : s ≢ codes ".."
  pub portable : all is_segment_byte s ≡ true

-- One or more segments joined by `/`, in 1024 bytes at most.
pub record IsKey (value : Bytes) : Type 0 where
  pub segments : List Bytes
  pub some_segment : segments ≢ []
  pub joined : join b'/' segments ≡ value
  pub all_segments : All IsSegment segments
  pub bounded : length value ≤ 1024

segment-lacks : (s : Bytes) → all is_segment_byte s ≡ true → lacks b'/' s ≡ true
segment-lacks [] h = refl
segment-lacks (c ∷ cs) h = ground (arith, segment-lacks cs)

segment-key_bytes : (s : Bytes) → all is_segment_byte s ≡ true → all is_key_byte s ≡ true
segment-key_bytes [] h = refl
segment-key_bytes (c ∷ cs) h = ground (arith, segment-key_bytes cs)

pub segments-lack : (ss : List Bytes) → All IsSegment ss → All (λ s. lacks b'/' s ≡ true) ss
segments-lack [] h = tt
segments-lack (s ∷ r) h = (segment-lacks s h.0.portable, segments-lack r h.1)

segment-safe : (s : Bytes) → IsSegment s → is_unsafe_segment s ≡ false
segment-safe [] h = absurd (h.named refl)
segment-safe (c ∷ cs) h =
    ground (arith, eq_bytes_iff (c ∷ cs) (codes "."), eq_bytes_iff (c ∷ cs) (codes ".."))

segments-safe : (ss : List Bytes) → All IsSegment ss → any is_unsafe_segment ss ≡ false
segments-safe [] h = refl
segments-safe (s ∷ r) h = rw (segment-safe s h.0) (segments-safe r h.1)

segments-key_bytes : (ss : List Bytes) → All IsSegment ss → all is_key_byte (join b'/' ss) ≡ true
segments-key_bytes [] h = refl
segments-key_bytes (s ∷ []) h = segment-key_bytes s h.0.portable
segments-key_bytes (s ∷ t ∷ r) h =
    all-append is_key_byte s (b'/' ∷ join b'/' (t ∷ r))
    ∙ rw (segment-key_bytes s h.0.portable) (segments-key_bytes (t ∷ r) h.1)

abbrev Portable : List Bytes → Type 0
Portable = All (λ s. all is_segment_byte s ≡ true)

push_head-Portable :
    (c : ℕ) (ss : List Bytes) → is_segment_byte c ≡ true → Portable ss → Portable (push_head c ss)
unfolding push_head
push_head-Portable c [] h p = (rw h, tt)
push_head-Portable c (s ∷ r) h p = (rw h p.0, p.1)

-- The segments of a text without unsupported bytes hold segment bytes only.
split-Portable : (v : Bytes) → all is_key_byte v ≡ true → Portable (split b'/' v)
unfolding split
split-Portable [] h = (refl, tt)
split-Portable (c ∷ cs) h = elim (Bool-cases (c == b'/')) [
  | inl sep ↦ rw sep (refl, split-Portable cs (ground arith))
  | inr other ↦
      rw other
        (push_head-Portable c (split b'/' cs) (ground arith) (split-Portable cs (ground arith)))
]

-- Safe and portable segments are segments of the grammar.
safe-IsSegment :
    (s : Bytes) → is_unsafe_segment s ≡ false → all is_segment_byte s ≡ true → IsSegment s
safe-IsSegment s u p = record {
  named = λ e. cc (subst (λ t. is_unsafe_segment t ≡ false) e u);
  not_current = λ e. cc (subst (λ t. is_unsafe_segment t ≡ false) e u);
  not_parent = λ e. cc (subst (λ t. is_unsafe_segment t ≡ false) e u);
  portable = p;
}

safe-All : (ss : List Bytes) → any is_unsafe_segment ss ≡ false → Portable ss → All IsSegment ss
safe-All [] u p = tt
safe-All (s ∷ r) u p = (safe-IsSegment s (ground arith) p.0, safe-All r (ground arith) p.1)

starts-join : (ss : List Bytes) → All IsSegment ss → starts_with_byte b'/' (join b'/' ss) ≡ false
starts-join [] h = refl
starts-join ([] ∷ r) h = absurd (h.0.named refl)
starts-join ((c ∷ cs) ∷ []) h = ground (arith, h.0.portable)
starts-join ((c ∷ cs) ∷ t ∷ r) h = ground (arith, h.0.portable)

join-nonempty : (ss : List Bytes) → ss ≢ [] → All IsSegment ss → is_empty (join b'/' ss) ≡ false
join-nonempty [] n h = absurd (n refl)
join-nonempty ([] ∷ r) n h = absurd (h.0.named refl)
join-nonempty ((c ∷ cs) ∷ []) n h = refl
join-nonempty ((c ∷ cs) ∷ t ∷ r) n h = refl

Accepted : Bytes → Type 0
Accepted value =
    (is_empty value ≡ false)
    × (length value ≤ 1024)
    × (starts_with_byte b'/' value ≡ false)
    × (any is_unsafe_segment (split b'/' value) ≡ false)
    × (all is_key_byte value ≡ true)

new-Accepted :
    (value : Bytes) {key : ObjectKey}
    → new value ≡ ok key
    → Accepted value × (key ≡ record { value = value })
unfolding new Accepted
new-Accepted value h = ground arith

Accepted-new : (value : Bytes) → Accepted value → new value ≡ ok (record { value = value })
unfolding new Accepted
Accepted-new value h = ground arith

IsKey-Accepted : (value : Bytes) → IsKey value → Accepted value
unfolding Accepted
IsKey-Accepted value k = (
  subst (λ v. is_empty v ≡ false) k.joined (join-nonempty k.segments k.some_segment k.all_segments),
  k.bounded,
  subst (λ v. starts_with_byte b'/' v ≡ false) k.joined (starts-join k.segments k.all_segments),
  subst (λ v. any is_unsafe_segment (split b'/' v) ≡ false) k.joined
      (rw (split-join b'/' k.segments k.some_segment (segments-lack k.segments k.all_segments))
        (segments-safe k.segments k.all_segments)),
  subst (λ v. all is_key_byte v ≡ true) k.joined (segments-key_bytes k.segments k.all_segments),
)

Accepted-IsKey : (value : Bytes) → Accepted value → IsKey value
unfolding Accepted
Accepted-IsKey value a = record {
  segments = split b'/' value;
  some_segment = split-ne-nil b'/' value;
  joined = join-split b'/' value;
  all_segments = safe-All (split b'/' value) a.3 (split-Portable value a.4);
  bounded = a.1;
}

-- `ObjectKey::new` accepts a text exactly when it is one or more path segments joined by `/` in at
-- most 1024 bytes, no segment being empty, `.` or `..` or holding a byte outside letters, digits
-- and `-_.`; the key that it returns holds the text unchanged.
pub new-IsKey :
    (value : Bytes)
    → (IsKey value → new value ≡ ok (record { value = value }))
      × ((key : ObjectKey) → new value ≡ ok key → IsKey value × (key.value ≡ value))
new-IsKey value = (
  λ k. Accepted-new value (IsKey-Accepted value k),
  λ key h.
      let (a, e) = new-Accepted value h in
      (Accepted-IsKey value a, ap (λ (k : ObjectKey). k.value) e),
)
