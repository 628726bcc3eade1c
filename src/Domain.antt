-- ===== src/Domain.antt =====
-- crates/g7mb-domain/src/lib.rs: the pure policy of uploads and media processing. The shared
-- enumerations stand here; the state machine, the object keys, the batch policy and the media
-- limits have a child each.
pub mod State
pub mod Keys
pub mod Batch
pub mod Media
use g7mediabooster.Base.{ℕ, Bool, true, false}

-- A Uuid is its 128-bit number, whose fixed-width text is ordered as the number is.
abbrev pub UploadId : Type 0
UploadId = ℕ

pub data MediaKind : Type 0 where
  image video : MediaKind

pub data UploadTransfer : Type 0 where
  single_put : UploadTransfer
  multipart : ℕ → UploadTransfer

pub data UploadState : Type 0 where
  created uploaded quarantined processing ready rejected failed deleted : UploadState

pub UploadState-discrete : Discrete UploadState
UploadState-discrete = hlevel

-- `#[derive(PartialEq)]`.
abbrev pub eq_state : UploadState → UploadState → Bool
eq_state created created = true
eq_state uploaded uploaded = true
eq_state quarantined quarantined = true
eq_state processing processing = true
eq_state ready ready = true
eq_state rejected rejected = true
eq_state failed failed = true
eq_state deleted deleted = true
eq_state _ _ = false

abbrev pub is_multipart : UploadTransfer → Bool
is_multipart single_put = false
is_multipart (multipart part_size_bytes) = true

abbrev pub is_video : MediaKind → Bool
is_video image = false
is_video video = true
