-- ===== src/Domain/Batch.antt =====
-- crates/g7mb-domain/src/lib.rs: `UploadBatchPolicy::plan`, which bounds one batch of uploads and
-- chooses the transfer of each file.
pub mod Bounds
use g7mediabooster.Base.{
  ℕ, ◌*◌, Bool, ◌||◌, List, [], ◌∷◌, Result, ok, reject_if, ok_or, ◌>>=◌, ◌>>◌, length, is_empty,
  ltb, leb, ◌==◌, if◌then◌else◌, checked_add,
}
use g7mediabooster.Domain.{MediaKind, image, video, UploadTransfer, single_put, multipart, is_video}

pub record UploadCandidate : Type 0 where
  pub declared_kind : MediaKind
  pub byte_len : ℕ

pub record UploadBatchPolicy : Type 0 where
  pub max_files : ℕ
  pub max_batch_bytes : ℕ
  pub max_image_bytes : ℕ
  pub max_video_bytes : ℕ
  pub multipart_threshold_bytes : ℕ
  pub multipart_part_size_bytes : ℕ

-- `UploadBatchPolicy::default()`.
abbrev pub default : UploadBatchPolicy
default = record {
  max_files = 100;
  max_batch_bytes = 20 * 1024 * 1024 * 1024;
  max_image_bytes = 128 * 1024 * 1024;
  max_video_bytes = 5 * 1024 * 1024 * 1024;
  multipart_threshold_bytes = 100 * 1024 * 1024;
  multipart_part_size_bytes = 32 * 1024 * 1024;
}

pub data UploadBatchPolicyError : Type 0 where
  empty too_many_files empty_file file_too_large batch_too_large invalid_part_size :
      UploadBatchPolicyError

unfoldable pub max_bytes : UploadBatchPolicy → MediaKind → ℕ
max_bytes p image = p.max_image_bytes
max_bytes p video = p.max_video_bytes

unfoldable pub transfer_of : UploadBatchPolicy → UploadCandidate → UploadTransfer
transfer_of p c =
    if is_video c.declared_kind || leb p.multipart_threshold_bytes c.byte_len
    then multipart p.multipart_part_size_bytes
    else single_put

-- The body of the loop: the new total, or the reason of the refusal.
unfoldable pub plan_file : UploadBatchPolicy → ℕ → UploadCandidate → Result UploadBatchPolicyError ℕ
unfolding max_bytes
plan_file p total c = do
  reject_if (c.byte_len == 0) empty_file
  reject_if (ltb (max_bytes p c.declared_kind) c.byte_len) file_too_large
  total' ← ok_or (checked_add total c.byte_len) batch_too_large
  reject_if (ltb p.max_batch_bytes total') batch_too_large
  ok total'

unfoldable pub plan_from :
    UploadBatchPolicy
    → ℕ
    → List UploadCandidate
    → Result UploadBatchPolicyError (List UploadTransfer)
plan_from p total [] = ok []
plan_from p total (c ∷ cs) = do
  total' ← plan_file p total c
  transfers ← plan_from p total' cs
  ok (transfer_of p c ∷ transfers)

unfoldable pub plan :
    UploadBatchPolicy → List UploadCandidate → Result UploadBatchPolicyError (List UploadTransfer)
plan p candidates = do
  reject_if (is_empty candidates) empty
  reject_if (ltb p.max_files (length candidates)) too_many_files
  reject_if (ltb p.multipart_part_size_bytes (5 * 1024 * 1024)) invalid_part_size
  plan_from p 0 candidates
