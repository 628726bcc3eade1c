-- ===== src/Auth/Payloads.antt =====
-- The canonical payloads determine the requests that they are made of.
use g7mediabooster.Base.{
  ℕ, zero, suc, ◌+◌, ◌-◌, ◌*◌, ◌/◌, ◌%◌, ◌≤◌, ◌<◌, ◌≡◌, ◌≢◌, refl, sym, ap, ◌∙◌, subst, inl, inr,
  true, false, List, [], ◌∷◌, Bytes, codes, all, ltb, arith, Bool-cases, identifier_byte,
  is_ascii_digit, is_ascii_graphic, is_ascii_uppercase, lower_hex_byte,
}
use g7mediabooster.Domain.Keys.{split}
use g7mediabooster.Domain.Keys.Split.{join, lacks, split-join}
use g7mediabooster.Auth.{
  ℤ, pos, negsuc, digits, show, SignedMediaUrl, SignedRequest, media_payload, canonical_payload,
  valid_field,
}

-- The number that decimal digits write, after the digits of k.
value : ℕ → Bytes → ℕ
value k [] = k
value k (b ∷ bs) = value (k * 10 + (b - b'0')) bs

digits-value : (fuel n : ℕ) (acc : Bytes) → n ≤ fuel → value 0 (digits fuel n acc) ≡ value n acc
unfolding digits value
digits-value zero n acc h = ap (λ k. value k acc) (omega arith)
digits-value (suc fuel) n acc h = elim (Bool-cases (ltb n 10)) [
  | inl last ↦ rw last (ap (λ k. value k acc) (omega (arith, below last)))
  | inr more ↦ rw more (
      digits-value fuel (n / 10) ((b'0' + n % 10) ∷ acc) (omega (arith, above more))
      ∙ ap (λ k. value k acc) (omega arith))
]
  where
    below : ltb n 10 ≡ true → n < 10
    below e = ground arith

    above : ltb n 10 ≡ false → 10 ≤ n
    above e = ground arith

digits-are_digits :
    (fuel n : ℕ) (acc : Bytes)
    → all is_ascii_digit acc ≡ true
    → all is_ascii_digit (digits fuel n acc) ≡ true
unfolding digits
digits-are_digits zero n acc h = ground arith
digits-are_digits (suc fuel) n acc h =
    ground (arith, h, digits-are_digits fuel (n / 10) ((b'0' + n % 10) ∷ acc))

digits-injective : (m n : ℕ) → digits m m [] ≡ digits n n [] → m ≡ n
unfolding value
digits-injective m n e =
    sym (digits-value m m [] (omega arith)) ∙ ap (value 0) e ∙ digits-value n n [] (omega arith)

no_sign : (n : ℕ) (bs : Bytes) → digits n n [] ≢ b'-' ∷ bs
no_sign n bs e =
    let d : all is_ascii_digit (b'-' ∷ bs) ≡ true =
      subst (λ t. all is_ascii_digit t ≡ true) e (digits-are_digits n n [] refl) in
    ground (arith, d)

tail-eq : (a b : ℕ) (xs ys : Bytes) → a ∷ xs ≡ b ∷ ys → xs ≡ ys
tail-eq a b xs ys e = cc

pub show-injective : (i j : ℤ) → show i ≡ show j → i ≡ j
unfolding show
show-injective (pos m) (pos n) e = ap pos (digits-injective m n e)
show-injective (pos m) (negsuc n) e = absurd (no_sign m _ e)
show-injective (negsuc m) (pos n) e = absurd (no_sign n _ (sym e))
show-injective (negsuc m) (negsuc n) e =
    ap negsuc (omega (arith, digits-injective (m + 1) (n + 1) (tail-eq _ _ _ _ e)))

-- A text without line breaks.
abbrev pub IsLine : Bytes → Type 0
IsLine t = lacks b'\n' t ≡ true

digits-IsLine : (t : Bytes) → all is_ascii_digit t ≡ true → IsLine t
digits-IsLine [] h = refl
digits-IsLine (c ∷ cs) h = ground (arith, digits-IsLine cs)

show-IsLine : (i : ℤ) → IsLine (show i)
unfolding show
show-IsLine (pos n) = digits-IsLine (digits n n []) (digits-are_digits n n [] refl)
show-IsLine (negsuc n) =
    ground
      (arith, digits-IsLine (digits (n + 1) (n + 1) []) (digits-are_digits (n + 1) (n + 1) [] refl))

identifier-IsLine : (t : Bytes) → all identifier_byte t ≡ true → IsLine t
identifier-IsLine [] h = refl
identifier-IsLine (c ∷ cs) h = ground (arith, identifier-IsLine cs)

graphic-IsLine : (t : Bytes) → all is_ascii_graphic t ≡ true → IsLine t
graphic-IsLine [] h = refl
graphic-IsLine (c ∷ cs) h = ground (arith, graphic-IsLine cs)

uppercase-IsLine : (t : Bytes) → all is_ascii_uppercase t ≡ true → IsLine t
uppercase-IsLine [] h = refl
uppercase-IsLine (c ∷ cs) h = ground (arith, uppercase-IsLine cs)

hex-IsLine : (t : Bytes) → all lower_hex_byte t ≡ true → IsLine t
hex-IsLine [] h = refl
hex-IsLine (c ∷ cs) h = ground (arith, hex-IsLine cs)

abbrev request_lines : SignedRequest → List Bytes
request_lines r =
    codes "G7MB-HMAC-SHA256"
    ∷ r.key_id
    ∷ show r.timestamp
    ∷ r.nonce
    ∷ r.method
    ∷ r.path_and_query
    ∷ r.body_sha256
    ∷ []

canonical_payload-join : (r : SignedRequest) → canonical_payload r ≡ join b'\n' (request_lines r)
unfolding canonical_payload
canonical_payload-join r = refl

-- The parts of a valid request that a line break could hide in.
record HasPlainFields (r : SignedRequest) : Type 0 where
  pub key_id : all identifier_byte r.key_id ≡ true
  pub nonce : all is_ascii_graphic r.nonce ≡ true
  pub method : all is_ascii_uppercase r.method ≡ true
  pub path : all is_ascii_graphic r.path_and_query ≡ true
  pub body : all lower_hex_byte r.body_sha256 ≡ true

valid_field-HasPlainFields : (r : SignedRequest) → valid_field r ≡ true → HasPlainFields r
unfolding valid_field
valid_field-HasPlainFields r h = record {
  key_id = ground (arith, h);
  nonce = ground (arith, h);
  method = ground (arith, h);
  path = ground (arith, h);
  body = ground (arith, h);
}

split-payload :
    (r : SignedRequest) → valid_field r ≡ true → split b'\n' (canonical_payload r) ≡ request_lines r
split-payload r h =
    let f = valid_field-HasPlainFields r h in
    rw (canonical_payload-join r) (
      split-join b'\n' (request_lines r) (λ e. cc)
        (
          refl,
          (
            identifier-IsLine r.key_id f.key_id,
            (
              show-IsLine r.timestamp,
              (
                graphic-IsLine r.nonce f.nonce,
                (
                  uppercase-IsLine r.method f.method,
                  (graphic-IsLine r.path_and_query f.path, (hex-IsLine r.body_sha256 f.body, tt)),
                ),
              ),
            ),
          ),
        ))

-- What a signature covers is the same.
pub record IsSameRequest (r q : SignedRequest) : Type 0 where
  pub key_id : r.key_id ≡ q.key_id
  pub timestamp : r.timestamp ≡ q.timestamp
  pub nonce : r.nonce ≡ q.nonce
  pub method : r.method ≡ q.method
  pub path_and_query : r.path_and_query ≡ q.path_and_query
  pub body_sha256 : r.body_sha256 ≡ q.body_sha256

same_lines-IsSameRequest :
    (r q : SignedRequest) → request_lines r ≡ request_lines q → IsSameRequest r q
same_lines-IsSameRequest r q e = record {
  key_id = cc;
  timestamp = show-injective r.timestamp q.timestamp cc;
  nonce = cc;
  method = cc;
  path_and_query = cc;
  body_sha256 = cc;
}

-- Two requests with valid fields that have one canonical payload agree in everything that a
-- signature covers: the fields are read back from the payload, the timestamp from its decimal
-- digits.
pub canonical_payload_injective :
    (r q : SignedRequest)
    → valid_field r ≡ true
    → valid_field q ≡ true
    → canonical_payload r ≡ canonical_payload q
    → IsSameRequest r q
canonical_payload_injective r q h k e =
    same_lines-IsSameRequest r q (sym (split-payload r h) ∙ ap (split b'\n') e ∙ split-payload q k)

nth_byte : ℕ → Bytes → ℕ
nth_byte n [] = 0
nth_byte zero (b ∷ bs) = b
nth_byte (suc n) (b ∷ bs) = nth_byte n bs

-- No control request and no media URL have one payload.
pub canonical_payload-ne-media_payload :
    (r : SignedRequest) (m : SignedMediaUrl) → canonical_payload r ≢ media_payload m
unfolding canonical_payload media_payload nth_byte
canonical_payload-ne-media_payload r m e =
    let fifth : b'H' ≡ b'M' = ap (nth_byte 5) e in omega (arith, fifth)
