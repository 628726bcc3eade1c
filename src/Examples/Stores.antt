-- ===== src/Examples/Stores.antt =====
-- The operations of crates/g7mb-persistence-sqlite/src/lib.rs on concrete stores.
use g7mediabooster.Base.{
  ◌≡◌, ◌≢◌, refl, false, List, [], ◌∷◌, none, some, ok, Bytes, codes, arith, count_where,
  find_where, select_where, eq_bytes, if◌then◌else◌,
}
use g7mediabooster.Domain.{image, single_put, created, ready}
use g7mediabooster.Ports.{from_secs}
use g7mediabooster.Uploads.{default_capacity, UploadStatusSnapshot}
use g7mediabooster.Store.{UploadRow, Store}
use g7mediabooster.Store.Confirmations.{is_delivery_allowed, find_status}
use g7mediabooster.Store.Processing.{upload_at}
use g7mediabooster.Store.Cleanup.{accepted, request_deletion}
use g7mediabooster.Store.Cleanup.Requests.{request_deletion-delivery}
use g7mediabooster.Store.Nonces.{consume, purged}
use g7mediabooster.Store.Nonces.Replay.{Consume, consume_all, replay_is_refused}
use g7mediabooster.Store.Moves.Accounts.{IsAccounted}
use g7mediabooster.Store.Moves.Rows.{Survives}
use g7mediabooster.Store.Moves.Capacity.{IsWithin}
use g7mediabooster.Store.Calls.{StoreCall, saves, confirms, rejects, requests, run_all}
use g7mediabooster.Store.Calls.Invariants.{run_all-IsAccounted, run_all-IsWithin, run_all-Survives}
use g7mediabooster.Examples.Queues.{upload, two_jobs}

-- A reservation that waits for its bytes.
abbrev reserved : UploadRow
reserved = record (upload 1 (codes "a")) { state = created; actual_size_bytes = none }

abbrev one_reserved : Store
one_reserved = record two_jobs {
  uploads = reserved ∷ [];
  jobs = [];
  reserved_global = 1000;
  reserved_by_tenant = λ t. if eq_bytes (codes "a") t then 1000 else 0;
}

abbrev calls : List StoreCall
calls =
    saves (record {
      batch_id = 5;
      tenant_id = codes "b";
      created_at = from_secs 20;
      uploads =
          record {
            upload_id = 2;
            object_key = record { value = codes "raw/b/2/source" };
            declared_kind = image;
            expected_size_bytes = 500;
            content_type_hint = codes "image/png";
            transfer = single_put;
            multipart_upload_id = none;
          }
          ∷ [];
    })
    ∷ confirms (codes "a") 1 1000 (codes "p") (from_secs 30) 9
    ∷ rejects 1 (codes "BAD") (from_secs 40)
    ∷ requests (codes "b") 2 (from_secs 50)
    ∷ []

one_reserved-IsAccounted : IsAccounted one_reserved
one_reserved-IsAccounted = record { global = refl; by_tenant = λ tenant. omega arith }

one_reserved-IsWithin : IsWithin default_capacity one_reserved
unfolding count_where
one_reserved-IsWithin = record {
  uploads = omega arith;
  tenant_uploads = λ tenant. ground arith;
  bytes = omega arith;
  tenant_bytes = λ tenant. ground arith;
}

run_all-IsAccounted_example : IsAccounted (run_all default_capacity one_reserved calls)
run_all-IsAccounted_example =
    run_all-IsAccounted default_capacity one_reserved calls one_reserved-IsAccounted

run_all-IsWithin_example : IsWithin default_capacity (run_all default_capacity one_reserved calls)
run_all-IsWithin_example =
    run_all-IsWithin default_capacity one_reserved calls one_reserved-IsAccounted
      one_reserved-IsWithin

found : upload_at 1 one_reserved ≡ some reserved
unfolding find_where
found = refl

run_all-Survives_example : Survives 1 reserved (run_all default_capacity one_reserved calls)
run_all-Survives_example = run_all-Survives default_capacity one_reserved calls 1 reserved found

abbrev nonce : Bytes
nonce = codes "0123456789abcdef"

abbrev one_nonce : Store
one_nonce = record two_jobs {
  nonces = record { key_id = codes "k"; nonce = nonce; expires_at = 300 } ∷ [];
}

first_consume : consume two_jobs (codes "k") nonce (from_secs 10) (from_secs 300) ≡ ok one_nonce
unfolding consume purged select_where
first_consume = refl

abbrev other_consumes : List Consume
other_consumes =
    record {
      key_id = codes "k";
      nonce = codes "fedcba9876543210";
      now = from_secs 20;
      expires_at = from_secs 310;
    }
    ∷ []

replay_is_refused_example :
    consume (consume_all one_nonce other_consumes) (codes "k") nonce (from_secs 30) (from_secs 320)
    ≢ ok one_nonce
replay_is_refused_example =
    replay_is_refused two_jobs one_nonce one_nonce other_consumes (codes "k") nonce (from_secs 10)
      (from_secs 300) (from_secs 30) (from_secs 320) first_consume (omega arith, tt) (omega arith)

abbrev published : Store
published = record one_reserved { uploads = record (upload 1 (codes "a")) { state = ready } ∷ [] }

request_accepted :
    (s : Store) × (request_deletion published (codes "a") 1 (from_secs 60) ≡ ok (accepted, s))
unfolding request_deletion find_where count_where
request_accepted = (_, refl)

request_deletion-delivery_example :
    (is_delivery_allowed request_accepted.0 (codes "a") 1 ≡ some false)
    × ((snapshot : UploadStatusSnapshot) × (find_status request_accepted.0 (codes "a") 1
          ≡ some snapshot)
        × (snapshot.derivatives ≡ []))
request_deletion-delivery_example =
    request_deletion-delivery published request_accepted.0 (codes "a") 1 (from_secs 60) accepted
      request_accepted.1
