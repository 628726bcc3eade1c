-- ===== src/Ports.antt =====
-- crates/g7mb-application/src/lib.rs: the object storage port, its requests and its errors. An
-- operation of a port takes the state of the world and returns a result with the new state.
pub mod Effects
pub mod Chains
pub mod Ends
pub mod Keeping
use g7mediabooster.Base.{ℕ, ◌/◌, ◌*◌, ◌^◌, Bytes, List, Option, Result}
use g7mediabooster.Domain.Keys.{ObjectKey}
use Prim.Native.String.{String}

-- `OffsetDateTime` from 1970 on and `Duration`, in nanoseconds.
abbrev pub OffsetDateTime : Type 0
OffsetDateTime = ℕ

abbrev pub Duration : Type 0
Duration = ℕ

abbrev pub nanos_per_second : ℕ
nanos_per_second = 10 ^ 9

-- `OffsetDateTime::unix_timestamp` and `Duration::as_secs`.
abbrev pub unix_timestamp : OffsetDateTime → ℕ
unix_timestamp t = t / nanos_per_second

abbrev pub as_secs : Duration → ℕ
as_secs d = d / nanos_per_second

abbrev pub from_secs : ℕ → Duration
from_secs s = s * nanos_per_second

pub record PresignPutRequest : Type 0 where
  pub key : ObjectKey
  pub content_length : ℕ
  pub content_type : Bytes
  pub expires_in : Duration

pub record PresignedUpload : Type 0 where
  pub url : Bytes
  pub required_headers : List (Bytes × Bytes)
  pub expires_at : OffsetDateTime

pub record PresignGetRequest : Type 0 where
  pub key : ObjectKey
  pub expires_in : Duration

pub record PresignedDownload : Type 0 where
  pub url : Bytes
  pub expires_at : OffsetDateTime

pub record CreateMultipartRequest : Type 0 where
  pub key : ObjectKey
  pub content_type : Bytes

pub record MultipartSession : Type 0 where
  pub upload_id : Bytes

pub record PresignPartRequest : Type 0 where
  pub key : ObjectKey
  pub upload_id : Bytes
  pub part_number : ℕ
  pub content_length : ℕ
  pub expires_in : Duration

pub record CompletedPart : Type 0 where
  pub part_number : ℕ
  pub etag : Bytes

pub record CompleteMultipartRequest : Type 0 where
  pub key : ObjectKey
  pub upload_id : Bytes
  pub parts : List CompletedPart

pub record AbortMultipartRequest : Type 0 where
  pub key : ObjectKey
  pub upload_id : Bytes

pub record ObjectMetadata : Type 0 where
  pub content_length : ℕ
  pub content_type : Option Bytes
  pub etag : Option Bytes

pub record DownloadObjectRequest : Type 0 where
  pub key : ObjectKey
  pub destination : Bytes
  pub expected_length : ℕ
  pub max_length : ℕ

pub record PutFileRequest : Type 0 where
  pub key : ObjectKey
  pub source : Bytes
  pub content_type : Bytes

pub record ListObjectsRequest : Type 0 where
  pub prefix : Bytes
  pub start_after : Option Bytes
  pub max_keys : ℕ

pub record ListedObject : Type 0 where
  pub key : Bytes
  pub content_length : ℕ

pub record ListedObjectsPage : Type 0 where
  pub objects : List ListedObject
  pub next_start_after : Option Bytes

pub data ObjectStoreError : Type 0 where
  invalid_request : String → ObjectStoreError
  not_found : ObjectStoreError
  content_length_mismatch : ObjectStoreError
  backend : String → ObjectStoreError

-- The trait, over the state of the world. A path is its text.
pub record ObjectStore (W : Type 0) : Type 0 where
  pub presign_put : PresignPutRequest → W → Result ObjectStoreError PresignedUpload × W
  pub presign_get : PresignGetRequest → W → Result ObjectStoreError PresignedDownload × W
  pub create_multipart : CreateMultipartRequest → W → Result ObjectStoreError MultipartSession × W
  pub presign_part : PresignPartRequest → W → Result ObjectStoreError PresignedUpload × W
  pub complete_multipart : CompleteMultipartRequest → W → Result ObjectStoreError (Unit {0}) × W
  pub abort_multipart : AbortMultipartRequest → W → Result ObjectStoreError (Unit {0}) × W
  pub head : ObjectKey → W → Result ObjectStoreError ObjectMetadata × W
  pub download_to : DownloadObjectRequest → W → Result ObjectStoreError ObjectMetadata × W
  pub put_file : PutFileRequest → W → Result ObjectStoreError ObjectMetadata × W
  pub list_objects : ListObjectsRequest → W → Result ObjectStoreError ListedObjectsPage × W
  pub delete : ObjectKey → W → Result ObjectStoreError (Unit {0}) × W
