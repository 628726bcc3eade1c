-- ===== src/Store/Nonces.antt =====
-- `impl NonceStore for SqliteStore` of crates/g7mb-persistence-sqlite/src/lib.rs: a nonce of a
-- signed request is accepted once.
pub mod Replay
use Prim.Native.String.{String}
use g7mediabooster.Base.{
  ℕ, ◌≡◌, ◌≤◌, ◌<◌, refl, inl, inr, Bool, true, false, ◌&&◌, ◌||◌, not, List, [], ◌∷◌, ◌++◌, Option,
  none, some, Result, ok, err, reject_if, ◌>>=◌, ◌>>◌, Bytes, any, any-append, length, is_empty,
  ltb, leb, ◌==◌, eq_bytes, eq_bytes_refl, if◌then◌else◌, select_where, arith, Bool-cases,
}
use g7mediabooster.Ports.{OffsetDateTime, unix_timestamp}
use g7mediabooster.Store.{NonceRow, Store}

pub data NonceStoreError : Type 0 where
  replay : NonceStoreError
  backend : String → NonceStoreError

-- The primary key of `request_nonces`.
abbrev pub is_nonce : Bytes → Bytes → NonceRow → Bool
is_nonce key_id nonce r = eq_bytes r.key_id key_id && eq_bytes r.nonce nonce

-- `DELETE FROM request_nonces WHERE expires_at <= ?`.
abbrev pub live : ℕ → NonceRow → Bool
live now r = ltb now r.expires_at

unfoldable pub purged : ℕ → List NonceRow → List NonceRow
purged now rows = select_where (live now) rows

-- `consume`: an error, a replay included, rolls the transaction back.
unfoldable pub consume :
    Store → Bytes → Bytes → OffsetDateTime → OffsetDateTime → Result NonceStoreError Store
unfolding purged
consume s key_id nonce now expires_at = do
  reject_if
      (is_empty key_id
        || ltb 128 (length key_id)
        || ltb (length nonce) 16
        || ltb 128 (length nonce)
        || leb expires_at now)
      (backend "nonce reservation input is invalid")
  reject_if (any (is_nonce key_id nonce) (purged (unix_timestamp now) s.nonces)) replay
  ok (record s {
    nonces =
        purged (unix_timestamp now) s.nonces
        ++ record { key_id = key_id; nonce = nonce; expires_at = unix_timestamp expires_at } ∷ [];
  })
