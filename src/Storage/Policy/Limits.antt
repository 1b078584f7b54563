-- ===== src/Storage/Policy/Limits.antt =====
-- What a policy lets through.
use acton_dx.Prelude.{
  ℕ, ◌+◌, ◌^◌, ◌≡◌, ◌≤◌, ◌<◌, ◌↔◌, refl, true, Option, none, some, List, String, Result, ok, err,
  arith, string_discrete, subst, Option-cases, inl, inr,
}
use acton_dx.Prelude.Set
use acton_dx.Prelude.Words.{add64}
use acton_dx.Storage.Types.{StorageError, UploadedFile, size, validate_size, validate_mime}
use acton_dx.Storage.Policy.{
  UploadPolicy, default, restrictive, allows_upload, check_mime, check_storage, builder, build,
  with_max_file_size, with_allowed_mime_types,
}

-- A number is within a limit, if there is one.
abbrev pub IsWithin : ℕ → Option ℕ → Type 0
IsWithin n none = Unit
IsWithin n (some most) = n ≤ most

abbrev pub IsAmong : String → Option (List String) → Type 0
IsAmong s none = Unit
IsAmong s (some texts) = Set.contains string_discrete s texts ≡ true

check_storage-ok_iff :
    (p : UploadPolicy) (file_size current : ℕ)
    → (check_storage p file_size current ≡ ok tt)
      ↔ IsWithin (add64 current file_size) p.max_total_storage
unfolding check_storage
check_storage-ok_iff p file_size current = elim (Option-cases p.max_total_storage) [
  | inl free ↦ rw (free, check_storage) ((λ _. tt), (λ _. refl))
  | inr (quota, limited) ↦ rw (limited, check_storage) ((λ e. ground arith), (λ w. ground arith))
]

check_mime-ok_iff :
    (p : UploadPolicy) (mime_type : String) (rest : Result Unit StorageError)
    → (check_mime p mime_type rest ≡ ok tt)
      ↔ (IsAmong mime_type p.allowed_mime_types × (rest ≡ ok tt))
unfolding check_mime
check_mime-ok_iff p mime_type rest = elim (Option-cases p.allowed_mime_types) [
  | inl free ↦ rw (free, check_mime) ((λ e. (tt, e)), (λ w. w.1))
  | inr (types, limited) ↦
      rw (limited, check_mime) ((λ e. (ground arith, ground arith)), (λ w. ground arith))
]

-- An upload is allowed exactly if the size is within the limit, the type is among the allowed ones,
-- and the sum of the storage in use and the size, as it is in 64 bits, is within the quota, each
-- where the policy sets one.
allows_upload-add64 :
    (p : UploadPolicy) (file_size current : ℕ) (mime_type : String)
    → (allows_upload p file_size mime_type current ≡ ok tt) ↔ (
        IsWithin file_size p.max_file_size
        × IsAmong mime_type p.allowed_mime_types
        × IsWithin (add64 current file_size) p.max_total_storage)
unfolding allows_upload check_mime check_storage
allows_upload-add64 p file_size current mime_type =
    let storage = check_storage-ok_iff p file_size current in
    let mime = check_mime-ok_iff p mime_type (check_storage p file_size current) in
    elim (Option-cases p.max_file_size) [
      | inl free ↦
          rw (free, allows_upload)
            (
              (λ e. let w = mime.0 e in (tt, w.0, storage.0 w.1)),
              (λ w. mime.1 (w.1, storage.1 w.2)),
            )
      | inr (most, limited) ↦
          rw (limited, allows_upload)
            (
              (λ e. let w = mime.0 (ground arith) in (ground arith, w.0, storage.0 w.1)),
              (λ w. let rest = mime.1 (w.1, storage.1 w.2) in ground arith),
            )
    ]

-- Where the two sizes fit into 64 bits together.
allows_upload-ok_iff :
    (p : UploadPolicy) (file_size current : ℕ) (mime_type : String)
    → current + file_size < 2 ^ 64
    → (allows_upload p file_size mime_type current ≡ ok tt) ↔ (
        IsWithin file_size p.max_file_size
        × IsAmong mime_type p.allowed_mime_types
        × IsWithin (current + file_size) p.max_total_storage)
allows_upload-ok_iff p file_size current mime_type fits =
    let sum : add64 current file_size ≡ current + file_size = omega arith in
    subst
      (λ (n : ℕ). (allows_upload p file_size mime_type current ≡ ok tt) ↔ (
        IsWithin file_size p.max_file_size
        × IsAmong mime_type p.allowed_mime_types
        × IsWithin n p.max_total_storage))
      sum (allows_upload-add64 p file_size current mime_type)

-- A policy built with a size and types and no quota gives the answer, the error included, of the
-- uploaded file's own checks, of its size first and then of its type, whatever is in use.
allows_upload-validate :
    (most : ℕ) (types : List String) (current : ℕ) (f : UploadedFile)
    → allows_upload
        (build (with_allowed_mime_types types (with_max_file_size most builder)))
        (size f)
        f.content_type
        current
      ≡ elim (validate_size most f) [ ok _ ↦ validate_mime types f | err e ↦ err e ]
unfolding allows_upload check_mime check_storage validate_size validate_mime
allows_upload-validate most types current f = ground arith

-- What the restrictive policy allows, the default one allows too, where the sizes fit into 64 bits.
restrictive-default :
    (file_size current : ℕ) (mime_type : String)
    → current + file_size < 2 ^ 64
    → allows_upload restrictive file_size mime_type current ≡ ok tt
    → allows_upload default file_size mime_type current ≡ ok tt
unfolding restrictive default
restrictive-default file_size current mime_type fits h =
    let (small, among, stored) =
      (allows_upload-ok_iff restrictive file_size current mime_type fits).0 h in
    (allows_upload-ok_iff default file_size current mime_type fits).1 (omega arith, tt, omega arith)

-- Where sums wrap, as in a release build, and the storage in use and the file's size, two numbers of 64
-- bits, do not fit into 64 bits together, a policy with a quota allows the upload exactly if its limits on the size and the type do
-- and the sum less 2^64 is within the quota: the quota does not stop a file that is far above it.
pub allows_upload-wraps :
    (p : UploadPolicy) (quota file_size current : ℕ) (mime_type : String)
    → p.max_total_storage ≡ some quota
    → 2 ^ 64 ≤ current + file_size
    → file_size < 2 ^ 64
    → current < 2 ^ 64
    → (allows_upload p file_size mime_type current ≡ ok tt) ↔ (
        IsWithin file_size p.max_file_size
        × IsAmong mime_type p.allowed_mime_types
        × (current + file_size ≤ 2 ^ 64 + quota))
allows_upload-wraps p quota file_size current mime_type set above fits in_use =
    let sum : add64 current file_size + 2 ^ 64 ≡ current + file_size = omega arith in
    let (allowed, sound) =
      subst
        (λ (limit : Option ℕ). (allows_upload p file_size mime_type current ≡ ok tt) ↔ (
          IsWithin file_size p.max_file_size
          × IsAmong mime_type p.allowed_mime_types
          × IsWithin (add64 current file_size) limit))
        set (allows_upload-add64 p file_size current mime_type) in
    (
      λ e. let (small, among, within) = allowed e in (small, among, omega (arith, sum, within)),
      λ (small, among, within). sound (small, among, omega (arith, sum, within)),
    )
