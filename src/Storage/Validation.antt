-- ===== src/Storage/Validation.antt =====
-- acton-dx/src/htmx/storage/validation.rs: the checks of a file's content. The detection of a type from the
-- content, by the crate infer, is a parameter.
mod Content
use acton_dx.Prelude.{
  ℕ, Bool, true, false, not, Option, none, some, List, [], ◌∷◌, String, string_discrete,
  if◌then◌else◌, Result, ok, err,
}
use text.Mathlib.Text.{starts_with}
use acton_dx.Prelude.Set
use acton_dx.Storage.Types.{StorageError, invalid_mime_type, UploadedFile, validate_mime}

pub record MimeValidator : Type 0 where
  pub strict : Bool

unfoldable pub new : MimeValidator
new = record { strict = true }

unfoldable pub permissive : MimeValidator
permissive = record { strict = false }

abbrev pub Infer : Type 0
Infer = List ℕ → Option String

unfoldable pub detect_mime : Infer → UploadedFile → Option String
detect_mime infer file = infer file.data_bytes

abbrev unknown : String
unknown = "unknown (could not detect from content)"

-- The check of what was detected.
unfoldable pub check_detected :
    MimeValidator → UploadedFile → List String → Option String → Result Unit StorageError
check_detected v file allowed_types none =
    if v.strict
    then err (invalid_mime_type allowed_types unknown)
    else validate_mime allowed_types file
check_detected v file allowed_types (some detected_type) =
    if not (Set.contains string_discrete detected_type allowed_types)
    then err (invalid_mime_type allowed_types detected_type)
    else ok tt

unfoldable pub validate_against_magic :
    Infer → MimeValidator → UploadedFile → List String → Result Unit StorageError
validate_against_magic infer v file allowed_types =
    check_detected v file allowed_types (detect_mime infer file)

unfoldable pub check_header :
    MimeValidator → UploadedFile → Option String → Result Unit StorageError
check_header v file none =
    if v.strict then err (invalid_mime_type (file.content_type ∷ []) unknown) else ok tt
check_header v file (some detected_type) = elim (string_discrete detected_type file.content_type) [
  | yes same ↦ ok tt
  | no other ↦ err (invalid_mime_type (file.content_type ∷ []) detected_type)
]

unfoldable pub validate_header_matches_content :
    Infer → MimeValidator → UploadedFile → Result Unit StorageError
validate_header_matches_content infer v file = check_header v file (detect_mime infer file)

abbrev is_some_and : (String → Bool) → Option String → Bool
is_some_and p none = false
is_some_and p (some mime) = p mime

unfoldable pub is_image : Infer → UploadedFile → Bool
is_image infer file = is_some_and (λ mime. starts_with mime "image/") (detect_mime infer file)

unfoldable pub is_video : Infer → UploadedFile → Bool
is_video infer file = is_some_and (λ mime. starts_with mime "video/") (detect_mime infer file)

abbrev pub document_types : List String
document_types =
    "application/pdf" ∷ "application/msword"
    ∷ "application/vnd.openxmlformats-officedocument.wordprocessingml.document"
    ∷ "application/vnd.ms-excel"
    ∷ "application/vnd.openxmlformats-officedocument.spreadsheetml.sheet"
    ∷ "application/vnd.ms-powerpoint"
    ∷ "application/vnd.openxmlformats-officedocument.presentationml.presentation" ∷ []

unfoldable pub is_document : Infer → UploadedFile → Bool
is_document infer file =
    is_some_and (λ mime. Set.contains string_discrete mime document_types) (detect_mime infer file)
