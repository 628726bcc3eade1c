-- ===== src/Domain/Keys.antt =====
-- crates/g7mb-domain/src/lib.rs: `ObjectKey` and `validate_object_key`, over the bytes of a key.
pub mod Split
pub mod Grammar
use g7mediabooster.Base.{
  ℕ, ◌≡◌, Bool, true, false, ◌||◌, not, List, [], ◌∷◌, Result, ok, err, reject_if, ◌>>=◌, ◌>>◌,
  Bytes, codes, eq_bytes, is_ascii_alphanumeric, all, any, length, is_empty, ltb, ◌==◌,
  if◌then◌else◌,
}

pub data ObjectKeyError : Type 0 where
  empty too_long absolute unsafe_segment unsupported_character : ObjectKeyError

pub record ObjectKey : Type 0 where
  pub value : Bytes

push_head : ℕ → List Bytes → List Bytes
push_head c [] = (c ∷ []) ∷ []
push_head c (s ∷ r) = (c ∷ s) ∷ r

-- `value.split(c)`: the segments between the separators, at least one.
unfoldable pub split : ℕ → Bytes → List Bytes
unfolding push_head
split sep [] = [] ∷ []
split sep (c ∷ cs) = let rest = split sep cs in if c == sep then [] ∷ rest else push_head c rest

abbrev pub is_unsafe_segment : Bytes → Bool
is_unsafe_segment s = is_empty s || eq_bytes s (codes ".") || eq_bytes s (codes "..")

abbrev pub starts_with_byte : ℕ → Bytes → Bool
starts_with_byte b [] = false
starts_with_byte b (c ∷ cs) = c == b

abbrev pub is_key_byte : ℕ → Bool
is_key_byte b = is_ascii_alphanumeric b || b == b'/' || b == b'-' || b == b'_' || b == b'.'

unfoldable pub validate_object_key : Bytes → Result ObjectKeyError (Unit {0})
validate_object_key value = do
  reject_if (is_empty value) empty
  reject_if (ltb 1024 (length value)) too_long
  reject_if (starts_with_byte b'/' value) absolute
  reject_if (any is_unsafe_segment (split b'/' value)) unsafe_segment
  reject_if (not (all is_key_byte value)) unsupported_character
  ok tt

-- `ObjectKey::new`, and `deserialize`, which goes through it.
unfoldable pub new : Bytes → Result ObjectKeyError ObjectKey
unfolding validate_object_key
new value = do validate_object_key value; ok (record { value = value })
