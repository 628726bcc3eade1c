-- ===== src/Policies/Settings.antt =====
-- What `normalized_settings_sha256` hashes tells all settings apart.
use g7mediabooster.Base.{
  ℕ, zero, suc, ◌/◌, ◌%◌, ◌^◌, ◌<◌, ◌≡◌, refl, sym, ap, ◌∙◌, true, [], ◌∷◌, ◌++◌, Option, none,
  some, Bytes, codes, all, length, length-append, ◌==◌, if◌then◌else◌, arith,
}
use g7mediabooster.Domain.Keys.{is_key_byte}
use g7mediabooster.Policies.{
  WatermarkPosition, center, top_left, top_right, bottom_left, bottom_right, StoredWatermarkPolicy,
  watermark_position_name, to_be_bytes, nul, normalized_settings,
}

-- Two texts of one length before two rests.
same_length :
    (xs ys : Bytes) {a b : Bytes} → length xs ≡ length ys → xs ++ a ≡ ys ++ b → (xs ≡ ys) × (a ≡ b)
same_length [] [] n e = (refl, e)
same_length [] (y ∷ ys) n e = absurd (omega arith)
same_length (x ∷ xs) [] n e = absurd (omega arith)
same_length (x ∷ xs) (y ∷ ys) {a} {b} n e =
    let rest : xs ++ a ≡ ys ++ b = cc in
    let (first, second) = same_length xs ys (omega arith) rest in (cc, second)

-- Two texts without the byte 0 before that byte.
until_nul :
    (xs ys : Bytes) {a b : Bytes}
    → all is_key_byte xs ≡ true
    → all is_key_byte ys ≡ true
    → xs ++ (nul ++ a) ≡ ys ++ (nul ++ b)
    → (xs ≡ ys) × (a ≡ b)
until_nul [] [] h k e = (refl, cc)
until_nul [] (y ∷ ys) h k e = let zero_byte : 0 ≡ y = cc in ground (arith, k, zero_byte)
until_nul (x ∷ xs) [] h k e = let zero_byte : x ≡ 0 = cc in ground (arith, h, zero_byte)
until_nul (x ∷ xs) (y ∷ ys) {a} {b} h k e =
    let rest : xs ++ (nul ++ a) ≡ ys ++ (nul ++ b) = cc in
    let (first, second) = until_nul xs ys (ground (arith, h)) (ground (arith, k)) rest in
    (cc, second)

nth_byte : ℕ → Bytes → ℕ
nth_byte n [] = 0
nth_byte zero (b ∷ bs) = b
nth_byte (suc n) (b ∷ bs) = nth_byte n bs

drop : ℕ → Bytes → Bytes
drop zero bs = bs
drop (suc n) [] = []
drop (suc n) (b ∷ bs) = drop n bs

-- The position that a text starts with, and what follows its name.
read_position : Bytes → WatermarkPosition × Bytes
unfolding nth_byte drop
read_position bs =
    if nth_byte 0 bs == b'c'
    then (center, drop 6 bs)
    else if nth_byte 0 bs == b't'
    then (if nth_byte 4 bs == b'l' then (top_left, drop 8 bs) else (top_right, drop 9 bs))
    else if nth_byte 7 bs == b'l'
    then (bottom_left, drop 11 bs)
    else (bottom_right, drop 12 bs)

read_position-name :
    (p : WatermarkPosition) (rest : Bytes)
    → read_position (watermark_position_name p ++ rest) ≡ (p, rest)
unfolding read_position
read_position-name center rest = refl
read_position-name top_left rest = refl
read_position-name top_right rest = refl
read_position-name bottom_left rest = refl
read_position-name bottom_right rest = refl

-- No name is a prefix of another.
position-injective :
    (p q : WatermarkPosition) {a b : Bytes}
    → watermark_position_name p ++ a ≡ watermark_position_name q ++ b
    → (p ≡ q) × (a ≡ b)
position-injective p q {a} {b} e =
    let same : ◌≡◌ {A = WatermarkPosition × Bytes} (p, a) (q, b) =
      sym (read_position-name p a) ∙ ap read_position e ∙ read_position-name q b in
    (ap (λ r. r.0) same, ap (λ r. r.1) same)

length-to_be_bytes : (k n : ℕ) → length (to_be_bytes k n) ≡ k
unfolding to_be_bytes
length-to_be_bytes zero n = refl
length-to_be_bytes (suc k) n = omega (
  arith,
  length-append (to_be_bytes k (n / 256)) ((n % 256) ∷ []),
  length-to_be_bytes k (n / 256),
)

-- A number that so many bytes hold.
abbrev pub Fits : ℕ → ℕ → Type 0
Fits zero n = n ≡ 0
Fits (suc k) n = Fits k (n / 256)

to_be_bytes-injective :
    (k m n : ℕ) → Fits k m → Fits k n → to_be_bytes k m ≡ to_be_bytes k n → m ≡ n
unfolding to_be_bytes
to_be_bytes-injective zero m n h j e = omega arith
to_be_bytes-injective (suc k) m n h j e =
    let (high, low) =
      same_length (to_be_bytes k (m / 256)) (to_be_bytes k (n / 256))
        (length-to_be_bytes k (m / 256) ∙ sym (length-to_be_bytes k (n / 256))) e in
    let quotient : m / 256 ≡ n / 256 = to_be_bytes-injective k (m / 256) (n / 256) h j high in
    let remainder : m % 256 ≡ n % 256 = cc in omega (arith, quotient, remainder)

-- A number field before a rest.
number-injective :
    (k m n : ℕ) {a b : Bytes}
    → Fits k m
    → Fits k n
    → to_be_bytes k m ++ a ≡ to_be_bytes k n ++ b
    → (m ≡ n) × (a ≡ b)
number-injective k m n h j e =
    let (digits, rest) =
      same_length (to_be_bytes k m) (to_be_bytes k n)
        (length-to_be_bytes k m ∙ sym (length-to_be_bytes k n)) e in
    (to_be_bytes-injective k m n h j digits, rest)

-- The values of the source's types, with a valid key and a digest of 64 bytes.
pub record IsStorable (w : StoredWatermarkPolicy) : Type 0 where
  pub id : w.asset_upload_id < 2 ^ 128
  pub key : all is_key_byte w.object_key.value ≡ true
  pub len : w.byte_len < 2 ^ 64
  pub digest : length w.asset_sha256 ≡ 64
  pub margin : w.margin_px < 2 ^ 32

id_in_range : (n : ℕ) → n < 2 ^ 128 → Fits 16 n
id_in_range n h = omega arith

len_in_range : (n : ℕ) → n < 2 ^ 64 → Fits 8 n
len_in_range n h = omega arith

margin_in_range : (n : ℕ) → n < 2 ^ 32 → Fits 4 n
margin_in_range n h = omega arith

-- The fields of an enabled watermark are read back from left to right.
enabled-injective :
    (v w : StoredWatermarkPolicy)
    → IsStorable v
    → IsStorable w
    → normalized_settings (some v) ≡ normalized_settings (some w)
    → v ≡ w
unfolding normalized_settings
enabled-injective v w h k e =
    let fields =
      (same_length
        (codes "g7mb-site-policy-settings-v1"
          ++ (nul ++ (codes "watermark" ++ (nul ++ (codes "enabled" ++ nul)))))
        (codes "g7mb-site-policy-settings-v1"
          ++ (nul ++ (codes "watermark" ++ (nul ++ (codes "enabled" ++ nul)))))
        refl e).1 in
    let (id, e1) =
      number-injective 16 v.asset_upload_id w.asset_upload_id (id_in_range _ h.id)
        (id_in_range _ k.id) fields in
    let (key, e2) =
      until_nul v.object_key.value w.object_key.value h.key k.key (same_length nul nul refl e1).1 in
    let (len, e3) =
      number-injective 8 v.byte_len w.byte_len (len_in_range _ h.len) (len_in_range _ k.len) e2 in
    let (digest, e4) = same_length v.asset_sha256 w.asset_sha256 (h.digest ∙ sym k.digest) e3 in
    let (position, e5) = position-injective v.position w.position e4 in
    let (margin, e6) =
      number-injective 4 v.margin_px w.margin_px (margin_in_range _ h.margin)
        (margin_in_range _ k.margin) e5 in
    let width : v.max_width_percent ≡ w.max_width_percent = cc in
    let opacity : v.opacity_percent ≡ w.opacity_percent = cc in cc

disabled-ne-enabled :
    (w : StoredWatermarkPolicy) → normalized_settings none ≡ normalized_settings (some w) → ⊥
unfolding normalized_settings nth_byte
disabled-ne-enabled w e = let letter : b'd' ≡ b'e' = ap (nth_byte 39) e in omega (arith, letter)

-- The settings of a revision, if they are storable.
abbrev pub AreStorable : Option StoredWatermarkPolicy → Type 0
AreStorable none = Unit
AreStorable (some w) = IsStorable w

-- Settings that are hashed from one text are the same: the upload, its key, its length and digest,
-- the position, the margin, the width and the opacity, or that the watermark is disabled. Their
-- numbers are within the source's types, the key is valid, and the digest has 64 bytes.
pub normalized_settings-injective :
    (v w : Option StoredWatermarkPolicy)
    → AreStorable v
    → AreStorable w
    → normalized_settings v ≡ normalized_settings w
    → v ≡ w
normalized_settings-injective none none h k e = refl
normalized_settings-injective none (some w) h k e = absurd (disabled-ne-enabled w e)
normalized_settings-injective (some v) none h k e = absurd (disabled-ne-enabled v (sym e))
normalized_settings-injective (some v) (some w) h k e = ap some (enabled-injective v w h k e)
