-- ===== src/Store/Nonces/Replay.antt =====
-- A nonce that is accepted is not accepted again before it expires.
use g7mediabooster.Base.{
  ℕ, ◌≡◌, ◌≢◌, ◌<◌, refl, Bool, true, ◌&&◌, List, [], ◌∷◌, ◌++◌, Result, ok, err, Bytes, any,
  any-append, ◌==◌, eq_bytes_refl, select_where, arith,
}
use g7mediabooster.Ports.{OffsetDateTime, unix_timestamp}
use g7mediabooster.Store.{NonceRow, Store}
use g7mediabooster.Store.Nonces.{NonceStoreError, is_nonce, purged, consume}

-- The consumes of other requests, or of the same one.
pub record Consume : Type 0 where
  pub key_id : Bytes
  pub nonce : Bytes
  pub now : OffsetDateTime
  pub expires_at : OffsetDateTime

abbrev pub after_consume : Store → Result NonceStoreError Store → Store
after_consume s (ok s') = s'
after_consume s (err e) = s

unfoldable pub consume_all : Store → List Consume → Store
consume_all s [] = s
consume_all s (c ∷ cs) =
    consume_all (after_consume s (consume s c.key_id c.nonce c.now c.expires_at)) cs

-- The nonce is held until a second.
abbrev pub is_held : Bytes → Bytes → ℕ → NonceRow → Bool
is_held key_id nonce until r = is_nonce key_id nonce r && r.expires_at == until

held-purged :
    (key_id nonce : Bytes) (until now : ℕ) (rows : List NonceRow)
    → now < until
    → any (is_held key_id nonce until) rows ≡ true
    → any (is_held key_id nonce until) (purged now rows) ≡ true
unfolding purged select_where
held-purged key_id nonce until now [] before h = cc
held-purged key_id nonce until now (r ∷ rows) before h =
    ground (arith, h, before, held-purged key_id nonce until now rows before)

held-is_nonce :
    (key_id nonce : Bytes) (until : ℕ) (rows : List NonceRow)
    → any (is_held key_id nonce until) rows ≡ true
    → any (is_nonce key_id nonce) rows ≡ true
held-is_nonce key_id nonce until [] h = cc
held-is_nonce key_id nonce until (r ∷ rows) h =
    ground (arith, h, held-is_nonce key_id nonce until rows)

abbrev pub IsBefore : ℕ → List Consume → Type 0
IsBefore until [] = Unit
IsBefore until (c ∷ cs) = (unix_timestamp c.now < until) × IsBefore until cs

consume-eq-ok :
    (s s' : Store) (key_id nonce : Bytes) (now expires_at : OffsetDateTime)
    → consume s key_id nonce now expires_at ≡ ok s'
    → s'.nonces
      ≡ purged (unix_timestamp now) s.nonces
        ++ record { key_id = key_id; nonce = nonce; expires_at = unix_timestamp expires_at } ∷ []
unfolding consume
consume-eq-ok s s' key_id nonce now expires_at h = ground (arith, h)

consume-holds :
    (s s' : Store) (key_id nonce : Bytes) (now expires_at : OffsetDateTime)
    → consume s key_id nonce now expires_at ≡ ok s'
    → any (is_held key_id nonce (unix_timestamp expires_at)) s'.nonces ≡ true
consume-holds s s' key_id nonce now expires_at h =
    let until : ℕ = unix_timestamp expires_at in
    let row : NonceRow = record { key_id = key_id; nonce = nonce; expires_at = until } in
    rw (consume-eq-ok s s' key_id nonce now expires_at h) (
      ground (
        arith,
        any-append (is_held key_id nonce until) (purged (unix_timestamp now) s.nonces) (row ∷ []),
        eq_bytes_refl key_id,
        eq_bytes_refl nonce,
      ))

consume-keeps :
    (s : Store) (c : Consume) (key_id nonce : Bytes) (until : ℕ)
    → unix_timestamp c.now < until
    → any (is_held key_id nonce until) s.nonces ≡ true
    → any
        (is_held key_id nonce until)
        (after_consume s (consume s c.key_id c.nonce c.now c.expires_at)).nonces
      ≡ true
consume-keeps s c key_id nonce until before h =
    kept (consume s c.key_id c.nonce c.now c.expires_at) refl
  where
    kept :
        (r : Result NonceStoreError Store)
        → consume s c.key_id c.nonce c.now c.expires_at ≡ r
        → any (is_held key_id nonce until) (after_consume s r).nonces ≡ true
    kept (err e) x = h
    kept (ok s') x =
        let row : NonceRow = record {
          key_id = c.key_id;
          nonce = c.nonce;
          expires_at = unix_timestamp c.expires_at;
        } in
        rw (consume-eq-ok s s' c.key_id c.nonce c.now c.expires_at x) (
          ground (
            arith,
            any-append (is_held key_id nonce until) (purged (unix_timestamp c.now) s.nonces)
                (row ∷ []),
            held-purged key_id nonce until (unix_timestamp c.now) s.nonces before h,
          ))

consume_all-keeps :
    (s : Store) (cs : List Consume) (key_id nonce : Bytes) (until : ℕ)
    → IsBefore until cs
    → any (is_held key_id nonce until) s.nonces ≡ true
    → any (is_held key_id nonce until) (consume_all s cs).nonces ≡ true
unfolding consume_all
consume_all-keeps s [] key_id nonce until before h = h
consume_all-keeps s (c ∷ cs) key_id nonce until before h =
    consume_all-keeps (after_consume s (consume s c.key_id c.nonce c.now c.expires_at)) cs key_id
      nonce until before.1 (consume-keeps s c key_id nonce until before.0 h)

refused :
    (s s' : Store) (key_id nonce : Bytes) (now expires_at : OffsetDateTime)
    → any (is_nonce key_id nonce) (purged (unix_timestamp now) s.nonces) ≡ true
    → consume s key_id nonce now expires_at ≢ ok s'
unfolding consume
refused s s' key_id nonce now expires_at h e = ground (arith, h, e)

-- Once a nonce of a key is accepted, it is not accepted again, after whatever consumes of any keys
-- and nonces, as long as all of them and the replay are made in a second before the one it expires
-- in.
pub replay_is_refused :
    (s s' t : Store) (cs : List Consume) (key_id nonce : Bytes)
    (now expires_at later next_expiry : OffsetDateTime)
    → consume s key_id nonce now expires_at ≡ ok s'
    → IsBefore (unix_timestamp expires_at) cs
    → unix_timestamp later < unix_timestamp expires_at
    → consume (consume_all s' cs) key_id nonce later next_expiry ≢ ok t
replay_is_refused s s' t cs key_id nonce now expires_at later next_expiry h before soon =
    let until : ℕ = unix_timestamp expires_at in
    let held =
      consume_all-keeps s' cs key_id nonce until before
        (consume-holds s s' key_id nonce now expires_at h) in
    refused (consume_all s' cs) t key_id nonce later next_expiry (
      held-is_nonce key_id nonce until _
        (held-purged key_id nonce until (unix_timestamp later) _ soon held))
