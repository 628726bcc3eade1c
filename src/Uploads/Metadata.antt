-- ===== src/Uploads/Metadata.antt =====
-- crates/g7mb-application/src/uploads.rs: `validate_file_metadata`, whose `BTreeSet` of references
-- is the list of those seen before.
use g7mediabooster.Base.{
  ◌≤◌, ◌≡◌, refl, ◌≢◌, Bool, true, false, ◌||◌, not, List, [], ◌∷◌, Result, ok, reject_if, ◌>>◌,
  Bytes, all, any, All, length, is_empty, ltb, eq_bytes, eq_bytes_iff, identifier_byte,
  is_ascii_graphic, arith, >>=-eq-ok,
}
use g7mediabooster.Uploads.{
  UploadFileIntent, CreateUploadBatchError, invalid_client_ref, invalid_content_type,
}

abbrev pub contains : Bytes → List Bytes → Bool
contains x = any (eq_bytes x)

-- The body of the loop.
unfoldable pub validate_file :
    List Bytes → UploadFileIntent → Result CreateUploadBatchError (Unit {0})
validate_file client_refs file = do
  reject_if
      (is_empty file.client_ref
        || ltb 128 (length file.client_ref)
        || not (all identifier_byte file.client_ref)
        || contains file.client_ref client_refs)
      invalid_client_ref
  reject_if
      (is_empty file.content_type_hint
        || ltb 255 (length file.content_type_hint)
        || not (all is_ascii_graphic file.content_type_hint))
      invalid_content_type
  ok tt

unfoldable pub validate_files :
    List Bytes → List UploadFileIntent → Result CreateUploadBatchError (Unit {0})
validate_files client_refs [] = ok tt
validate_files client_refs (file ∷ files) = do
  validate_file client_refs file
  validate_files (file.client_ref ∷ client_refs) files

unfoldable pub validate_file_metadata :
    List UploadFileIntent → Result CreateUploadBatchError (Unit {0})
unfolding validate_files
validate_file_metadata files = validate_files [] files

-- A file whose reference and type hint are well formed.
pub record IsWellFormed (file : UploadFileIntent) : Type 0 where
  pub some_ref : is_empty file.client_ref ≡ false
  pub short_ref : length file.client_ref ≤ 128
  pub plain_ref : all identifier_byte file.client_ref ≡ true
  pub some_type : is_empty file.content_type_hint ≡ false
  pub short_type : length file.content_type_hint ≤ 255
  pub plain_type : all is_ascii_graphic file.content_type_hint ≡ true

-- No reference of the list is the given one.
abbrev pub Fresh : Bytes → List UploadFileIntent → Type 0
Fresh ref = All (λ f. f.client_ref ≢ ref)

-- No two files have one reference.
abbrev pub Distinct : List UploadFileIntent → Type 0
Distinct [] = Unit
Distinct (f ∷ fs) = Fresh f.client_ref fs × Distinct fs

-- No file has a reference of the list.
abbrev Unseen : List Bytes → List UploadFileIntent → Type 0
Unseen refs = All (λ f. contains f.client_ref refs ≡ false)

Unseen-cons :
    (ref : Bytes) (refs : List Bytes) (fs : List UploadFileIntent)
    → Fresh ref fs
    → Unseen refs fs
    → Unseen (ref ∷ refs) fs
Unseen-cons ref refs [] n u = tt
Unseen-cons ref refs (f ∷ fs) n u =
    (ground (arith, eq_bytes_iff f.client_ref ref), Unseen-cons ref refs fs n.1 u.1)

Unseen-uncons :
    (ref : Bytes) (refs : List Bytes) (fs : List UploadFileIntent)
    → Unseen (ref ∷ refs) fs
    → Fresh ref fs × Unseen refs fs
Unseen-uncons ref refs [] u = (tt, tt)
Unseen-uncons ref refs (f ∷ fs) u =
    let (n, v) = Unseen-uncons ref refs fs u.1 in
    ((ground (arith, eq_bytes_iff f.client_ref ref), n), (ground arith, v))

validate_file-accepts :
    (refs : List Bytes) (f : UploadFileIntent)
    → IsWellFormed f
    → contains f.client_ref refs ≡ false
    → validate_file refs f ≡ ok tt
unfolding validate_file
validate_file-accepts refs f w c = ground arith

validate_file-eq-ok :
    (refs : List Bytes) (f : UploadFileIntent)
    → validate_file refs f ≡ ok tt
    → IsWellFormed f × (contains f.client_ref refs ≡ false)
unfolding validate_file
validate_file-eq-ok refs f h = ground arith

validate_files-accepts :
    (refs : List Bytes) (fs : List UploadFileIntent)
    → All IsWellFormed fs
    → Distinct fs
    → Unseen refs fs
    → validate_files refs fs ≡ ok tt
unfolding validate_files
validate_files-accepts refs [] w d u = refl
validate_files-accepts refs (f ∷ fs) w d u = rw (validate_file-accepts refs f w.0 u.0) (
    validate_files-accepts (f.client_ref ∷ refs) fs w.1 d.1
      (Unseen-cons f.client_ref refs fs d.0 u.1))

validate_files-eq-ok :
    (refs : List Bytes) (fs : List UploadFileIntent)
    → validate_files refs fs ≡ ok tt
    → All IsWellFormed fs × Distinct fs × Unseen refs fs
unfolding validate_files
validate_files-eq-ok refs [] h = (tt, tt, tt)
validate_files-eq-ok refs (f ∷ fs) h =
    let (u, e, k) =
      >>=-eq-ok (validate_file refs f) (λ _. validate_files (f.client_ref ∷ refs) fs) h in
    let (w, c) = validate_file-eq-ok refs f e in
    let (ws, d, us) = validate_files-eq-ok (f.client_ref ∷ refs) fs k in
    let (n, us') = Unseen-uncons f.client_ref refs fs us in ((w, ws), (n, d), (c, us'))

Unseen-nil : (fs : List UploadFileIntent) → Unseen [] fs
Unseen-nil [] = tt
Unseen-nil (f ∷ fs) = (refl, Unseen-nil fs)

-- The metadata of a batch is accepted exactly when every file's reference (1 to 128 letters,
-- digits, `-` or `_`) and type hint (1 to 255 graphic bytes) are well formed and no two files have
-- one reference.
pub validate_file_metadata-Distinct :
    (fs : List UploadFileIntent)
    → (All IsWellFormed fs → Distinct fs → validate_file_metadata fs ≡ ok tt)
      × (validate_file_metadata fs ≡ ok tt → All IsWellFormed fs × Distinct fs)
unfolding validate_file_metadata
validate_file_metadata-Distinct fs = (
  λ w d. validate_files-accepts [] fs w d (Unseen-nil fs),
  λ h. let (w, d, u) = validate_files-eq-ok [] fs h in (w, d),
)
