-- ===== src/Storage/Policy/Tests.antt =====
-- The policies on concrete uploads.
use acton_dx.Prelude.{◌^◌, ◌-◌, ◌≡◌, ◌≤◌, ◌+◌, ◌↔◌, refl, [], ◌∷◌, ok, arith, string_discrete}
use acton_dx.Prelude.Set
use acton_dx.Storage.Types.{UploadedFile}
use acton_dx.Storage.Policy.{
  UploadPolicy, restrictive, allows_upload, check_mime, check_storage, builder, build,
  with_max_total_storage,
}
use acton_dx.Storage.Policy.Limits.{allows_upload-wraps, IsWithin, IsAmong}

abbrev photo : UploadedFile
photo = record {
  filename = "photo.png";
  content_type = "image/png";
  data_bytes = 137 ∷ 80 ∷ 78 ∷ [];
}

png_allowed : allows_upload restrictive 3 "image/png" 100 ≡ ok tt
unfolding allows_upload check_mime check_storage restrictive Set.contains string_discrete
png_allowed = refl

-- With a quota of ten bytes, of which five are in use.
abbrev tiny : UploadPolicy
tiny = build (with_max_total_storage 10 builder)

-- It does not stop a file of 2^64 - 1 bytes.
allows_upload-wraps_example : (allows_upload tiny (2 ^ 64 - 1) "image/png" 5 ≡ ok tt) ↔ (
    IsWithin (2 ^ 64 - 1) tiny.max_file_size
    × IsAmong "image/png" tiny.allowed_mime_types
    × (5 + (2 ^ 64 - 1) ≤ 2 ^ 64 + 10))
allows_upload-wraps_example =
    allows_upload-wraps tiny 10 (2 ^ 64 - 1) 5 "image/png" refl (omega arith) (omega arith)
      (omega arith)
