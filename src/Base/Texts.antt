-- ===== src/Base/Texts.antt =====
-- Texts as lists of bytes, the ASCII classes of the Rust standard library, and integer ranges.
use Prim.Native.Char.{code}
use Prim.Native.String.{String}
use Prim.Native.Nat.{ℕ, ◌+◌, ◌-◌, ◌*◌, ◌^◌}
use mathlib.Core.Path.{◌≡◌, refl, ap}
use mathlib.Core.Logic.{◌↔◌}
use mathlib.Core.Bool.{Bool, true, false, ◌&&◌, ◌||◌}
use mathlib.Core.Option.{Option, none, some}
use mathlib.Core.List.{List, [], ◌∷◌}
use native.Mathlib.Omega.{arith}
use g7mediabooster.Base.Tests.{leb, ◌==◌, within, if◌then◌else◌}

abbrev pub Bytes : Type 0
Bytes = List ℕ

-- The bytes of an ASCII literal.
abbrev pub codes : String → Bytes
codes String.[] = []
codes (String.◌∷◌ c s) = code c ∷ codes s

abbrev pub eq_bytes : Bytes → Bytes → Bool
eq_bytes [] [] = true
eq_bytes [] (y ∷ ys) = false
eq_bytes (x ∷ xs) [] = false
eq_bytes (x ∷ xs) (y ∷ ys) = x == y && eq_bytes xs ys

pub eq_bytes_refl : (xs : Bytes) → eq_bytes xs xs ≡ true
eq_bytes_refl [] = refl
eq_bytes_refl (x ∷ xs) = ground (arith, eq_bytes_refl xs)

pub eq_bytes_eq : (xs ys : Bytes) → eq_bytes xs ys ≡ true → xs ≡ ys
eq_bytes_eq [] [] h = refl
eq_bytes_eq [] (y ∷ ys) h = cc
eq_bytes_eq (x ∷ xs) [] h = cc
eq_bytes_eq (x ∷ xs) (y ∷ ys) h = ground (arith, eq_bytes_eq xs ys)

pub eq_bytes_iff : (xs ys : Bytes) → (eq_bytes xs ys ≡ true) ↔ (xs ≡ ys)
eq_bytes_iff xs ys = (eq_bytes_eq xs ys, λ e. cc (ap (eq_bytes xs) e, eq_bytes_refl xs))

abbrev pub is_ascii_digit : ℕ → Bool
is_ascii_digit = within b'0' b'9'

abbrev pub is_ascii_uppercase : ℕ → Bool
is_ascii_uppercase = within b'A' b'Z'

abbrev pub is_ascii_lowercase : ℕ → Bool
is_ascii_lowercase = within b'a' b'z'

abbrev pub is_ascii_alphanumeric : ℕ → Bool
is_ascii_alphanumeric b = is_ascii_digit b || is_ascii_uppercase b || is_ascii_lowercase b

abbrev pub is_ascii_graphic : ℕ → Bool
is_ascii_graphic = within b'!' b'~'

-- `byte.is_ascii_alphanumeric() || matches!(byte, b'-' | b'_')`.
abbrev pub identifier_byte : ℕ → Bool
identifier_byte b = is_ascii_alphanumeric b || b == b'-' || b == b'_'

-- `byte.is_ascii_digit() || matches!(byte, b'a'..=b'f')`.
abbrev pub lower_hex_byte : ℕ → Bool
lower_hex_byte b = is_ascii_digit b || within b'a' b'f' b

-- `byte.is_ascii_uppercase() || byte.is_ascii_digit() || byte == b'_'`.
abbrev pub error_code_byte : ℕ → Bool
error_code_byte b = is_ascii_uppercase b || is_ascii_digit b || b == b'_'

abbrev pub u64_max : ℕ
u64_max = 2 ^ 64 - 1

abbrev pub i64_max : ℕ
i64_max = 2 ^ 63 - 1

-- `u64::checked_add` and `checked_mul`, and `i64::checked_add` of numbers that are not negative.
abbrev pub checked_add : ℕ → ℕ → Option ℕ
checked_add a b = if leb (a + b) u64_max then some (a + b) else none

abbrev pub checked_mul : ℕ → ℕ → Option ℕ
checked_mul a b = if leb (a * b) u64_max then some (a * b) else none

abbrev pub checked_add_i64 : ℕ → ℕ → Option ℕ
checked_add_i64 a b = if leb (a + b) i64_max then some (a + b) else none

-- `i64::try_from` of an unsigned number.
abbrev pub try_i64 : ℕ → Option ℕ
try_i64 a = if leb a i64_max then some a else none
