-- ===== src/Storage/Policy.antt =====
-- acton-dx/src/htmx/storage/policy.rs: what an upload may be. The sum of sizes wraps at 64 bits, as
-- in a release build.
pub mod Limits
mod Tests
use acton_dx.Prelude.{
  ℕ, ◌*◌, ◌≡◌, Bool, true, false, Option, none, some, List, [], ◌∷◌, String, ltb, not,
  if◌then◌else◌, Result, ok, err, string_discrete,
}
use acton_dx.Prelude.Set
use acton_dx.Prelude.Words.{add64}
use acton_dx.Storage.Types.{StorageError, quota_exceeded, file_size_exceeded, invalid_mime_type}

pub record UploadPolicy : Type 0 where
  pub max_file_size : Option ℕ
  pub allowed_mime_types : Option (List String)
  pub max_total_storage : Option ℕ
  pub max_uploads_per_window : Option ℕ
  pub rate_limit_window_secs : Option ℕ

-- `UploadPolicy::default`
unfoldable pub default : UploadPolicy
default = record {
  max_file_size = some (10 * 1024 * 1024);
  allowed_mime_types = none;
  max_total_storage = some (1024 * 1024 * 1024);
  max_uploads_per_window = some 100;
  rate_limit_window_secs = some 3600;
}

unfoldable pub unrestricted : UploadPolicy
unrestricted = record {
  max_file_size = none;
  allowed_mime_types = none;
  max_total_storage = none;
  max_uploads_per_window = none;
  rate_limit_window_secs = none;
}

unfoldable pub restrictive : UploadPolicy
restrictive = record {
  max_file_size = some (1024 * 1024);
  allowed_mime_types = some ("image/jpeg" ∷ "image/png" ∷ "image/gif" ∷ []);
  max_total_storage = some (10 * 1024 * 1024);
  max_uploads_per_window = some 10;
  rate_limit_window_secs = some 3600;
}

-- The three checks of `allows_upload`, the first that fails giving the error.
unfoldable pub check_storage : UploadPolicy → ℕ → ℕ → Result Unit StorageError
check_storage p file_size current = elim p.max_total_storage [
  | none ↦ ok tt
  | some max_storage ↦
      if ltb max_storage (add64 current file_size) then err quota_exceeded else ok tt
]

unfoldable pub check_mime :
    UploadPolicy → String → Result Unit StorageError → Result Unit StorageError
check_mime p mime_type rest = elim p.allowed_mime_types [
  | none ↦ rest
  | some types ↦
      if not (Set.contains string_discrete mime_type types)
      then err (invalid_mime_type types mime_type)
      else rest
]

unfoldable pub allows_upload : UploadPolicy → ℕ → String → ℕ → Result Unit StorageError
unfolding check_storage check_mime
allows_upload p file_size mime_type current =
    let rest = check_mime p mime_type (check_storage p file_size current) in
    elim p.max_file_size [
      | none ↦ rest
      | some max_size ↦
          if ltb max_size file_size then err (file_size_exceeded file_size max_size) else rest
    ]

unfoldable pub rate_limit : UploadPolicy → Option (ℕ × ℕ)
rate_limit p = elim p.max_uploads_per_window [
  | none ↦ none
  | some max_uploads ↦ elim p.rate_limit_window_secs [
    | none ↦ none
    | some window_secs ↦ some (max_uploads, window_secs)
  ]
]

-- `PolicyBuilder` has the policy's fields, and each of its methods sets one or two of them.
pub record PolicyBuilder : Type 0 where
  pub max_file_size : Option ℕ
  pub allowed_mime_types : Option (List String)
  pub max_total_storage : Option ℕ
  pub max_uploads_per_window : Option ℕ
  pub rate_limit_window_secs : Option ℕ

abbrev pub builder : PolicyBuilder
builder = record {
  max_file_size = none;
  allowed_mime_types = none;
  max_total_storage = none;
  max_uploads_per_window = none;
  rate_limit_window_secs = none;
}

abbrev pub with_max_file_size : ℕ → PolicyBuilder → PolicyBuilder
with_max_file_size size b = record b { max_file_size = some size }

abbrev pub with_allowed_mime_types : List String → PolicyBuilder → PolicyBuilder
with_allowed_mime_types types b = record b { allowed_mime_types = some types }

abbrev pub with_max_total_storage : ℕ → PolicyBuilder → PolicyBuilder
with_max_total_storage size b = record b { max_total_storage = some size }

abbrev pub with_rate_limit : ℕ → ℕ → PolicyBuilder → PolicyBuilder
with_rate_limit max_uploads window_secs b = record b {
  max_uploads_per_window = some max_uploads;
  rate_limit_window_secs = some window_secs;
}

abbrev pub build : PolicyBuilder → UploadPolicy
build b = record {
  max_file_size = b.max_file_size;
  allowed_mime_types = b.allowed_mime_types;
  max_total_storage = b.max_total_storage;
  max_uploads_per_window = b.max_uploads_per_window;
  rate_limit_window_secs = b.rate_limit_window_secs;
}
