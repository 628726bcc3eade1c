-- ===== src/Domain/Batch/Bounds.antt =====
-- What an accepted plan guarantees, and which batches are accepted.
use g7mediabooster.Base.{
  ℕ, ◌+◌, ◌*◌, ◌≤◌, ◌<◌, ◌≡◌, refl, List, [], ◌∷◌, map, ok, length, sum_by, All, u64_max, arith,
  >>=-eq-ok,
}
use g7mediabooster.Domain.{UploadTransfer}
use g7mediabooster.Domain.Batch.{
  UploadCandidate, UploadBatchPolicy, max_bytes, transfer_of, plan_file, plan_from, plan,
}

abbrev pub total_bytes : List UploadCandidate → ℕ
total_bytes = sum_by (λ c. c.byte_len)

-- A file that the policy admits on its own.
pub record FileFits (p : UploadBatchPolicy) (c : UploadCandidate) : Type 0 where
  pub not_empty : 0 < c.byte_len
  pub within_kind : c.byte_len ≤ max_bytes p c.declared_kind

-- A batch that the policy admits.
pub record Fits (p : UploadBatchPolicy) (cs : List UploadCandidate) : Type 0 where
  pub some_file : 0 < length cs
  pub few_files : length cs ≤ p.max_files
  pub valid_part_size : 5 * 1024 * 1024 ≤ p.multipart_part_size_bytes
  pub each_file : All (FileFits p) cs
  pub within_batch : total_bytes cs ≤ p.max_batch_bytes

plan_file-accepts :
    (p : UploadBatchPolicy) (total : ℕ) (c : UploadCandidate)
    → FileFits p c
    → total + c.byte_len ≤ p.max_batch_bytes
    → p.max_batch_bytes ≤ u64_max
    → plan_file p total c ≡ ok (total + c.byte_len)
unfolding plan_file
plan_file-accepts p total c f h b = ground arith

plan_file-eq-ok :
    (p : UploadBatchPolicy) (total : ℕ) (c : UploadCandidate) {n : ℕ}
    → plan_file p total c ≡ ok n
    → (n ≡ total + c.byte_len) × FileFits p c × (n ≤ p.max_batch_bytes)
unfolding plan_file
plan_file-eq-ok p total c h = ground arith

plan_from-accepts :
    (p : UploadBatchPolicy) (total : ℕ) (cs : List UploadCandidate)
    → All (FileFits p) cs
    → total + total_bytes cs ≤ p.max_batch_bytes
    → p.max_batch_bytes ≤ u64_max
    → plan_from p total cs ≡ ok (map (transfer_of p) cs)
unfolding plan_from
plan_from-accepts p total [] f h b = refl
plan_from-accepts p total (c ∷ cs) f h b =
    rw (plan_file-accepts p total c f.0 (omega arith) b)
      (rw (plan_from-accepts p (total + c.byte_len) cs f.1 (omega arith) b))

plan_from-eq-ok :
    (p : UploadBatchPolicy) (total : ℕ) (cs : List UploadCandidate) (ts : List UploadTransfer)
    → total ≤ p.max_batch_bytes
    → plan_from p total cs ≡ ok ts
    → All (FileFits p) cs
      × (total + total_bytes cs ≤ p.max_batch_bytes)
      × (ts ≡ map (transfer_of p) cs)
unfolding plan_from
plan_from-eq-ok p total [] ts b h = ground arith
plan_from-eq-ok p total (c ∷ cs) ts b h =
    let (n, e, k) = >>=-eq-ok (plan_file p total c) _ h in
    let (us, e', k') = >>=-eq-ok (plan_from p n cs) _ k in
    let (s, f, l) = plan_file-eq-ok p total c e in
    let (fs, m, t) = plan_from-eq-ok p n cs us l e' in ((f, fs), omega arith, ground arith)

plan-accepts :
    (p : UploadBatchPolicy) (cs : List UploadCandidate)
    → p.max_batch_bytes ≤ u64_max
    → Fits p cs
    → plan p cs ≡ ok (map (transfer_of p) cs)
unfolding plan
plan-accepts p [] b f = absurd (omega arith)
plan-accepts p (c ∷ cs) b f =
    ground (arith, plan_from-accepts p 0 (c ∷ cs) f.each_file (omega arith) b)

plan-eq-ok :
    (p : UploadBatchPolicy) (cs : List UploadCandidate) (ts : List UploadTransfer)
    → plan p cs ≡ ok ts
    → Fits p cs × (ts ≡ map (transfer_of p) cs)
unfolding plan
plan-eq-ok p [] ts h = cc
plan-eq-ok p (c ∷ cs) ts h =
    let (k, few, size) = guards h in
    let (f, total, t) = plan_from-eq-ok p 0 (c ∷ cs) ts (omega arith) k in
    (
      record {
        some_file = omega arith;
        few_files = few;
        valid_part_size = size;
        each_file = f;
        within_batch = omega arith;
      },
      t,
    )
  where
    guards :
        plan p (c ∷ cs) ≡ ok ts
        → (plan_from p 0 (c ∷ cs) ≡ ok ts)
          × (length (c ∷ cs) ≤ p.max_files)
          × (5 * 1024 * 1024 ≤ p.multipart_part_size_bytes)
    guards h = ground arith

-- The plan succeeds exactly on the batches that fit the policy (1 to `max_files` files, a part
-- size of 5 MiB at least, no file empty or above the cap of its kind, and a total within the batch
-- cap), and then it holds the transfer of each file, in the order of the files. The batch cap is
-- a `u64`.
pub plan-Fits :
    (p : UploadBatchPolicy) (cs : List UploadCandidate)
    → p.max_batch_bytes ≤ u64_max
    → (Fits p cs → plan p cs ≡ ok (map (transfer_of p) cs))
      × ((ts : List UploadTransfer) → plan p cs ≡ ok ts → Fits p cs × (ts ≡ map (transfer_of p) cs))
plan-Fits p cs b = (plan-accepts p cs b, plan-eq-ok p cs)
