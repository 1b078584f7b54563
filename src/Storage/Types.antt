-- ===== src/Storage/Types.antt =====
-- acton-dx/src/htmx/storage/types.rs: an uploaded file, and the checks of its size and type. The
-- extension of its name is left out, as the I/O error of `StorageError`.
use acton_dx.Prelude.{
  ℕ, List, String, length, ltb, not, if◌then◌else◌, Result, ok, err, string_discrete,
}
use acton_dx.Prelude.Set

pub data StorageError : Type 0 where
  not_found invalid_path other : String → StorageError
  quota_exceeded : StorageError
  file_size_exceeded : (actual limit : ℕ) → StorageError
  invalid_mime_type : (expected : List String) (actual : String) → StorageError

pub record UploadedFile : Type 0 where
  pub filename : String
  pub content_type : String
  pub data_bytes : List ℕ

abbrev pub size : UploadedFile → ℕ
size f = length f.data_bytes

unfoldable pub validate_size : ℕ → UploadedFile → Result Unit StorageError
validate_size max_bytes f =
    if ltb max_bytes (size f) then err (file_size_exceeded (size f) max_bytes) else ok tt

unfoldable pub validate_mime : List String → UploadedFile → Result Unit StorageError
validate_mime allowed_types f =
    if not (Set.contains string_discrete f.content_type allowed_types)
    then err (invalid_mime_type allowed_types f.content_type)
    else ok tt
