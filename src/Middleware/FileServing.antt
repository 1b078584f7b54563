-- ===== src/Middleware/FileServing.antt =====
-- acton-dx/src/htmx/middleware/file_serving.rs: serving a stored file, or a range of it. The storage
-- and the guess of a type from a file name are parameters. Header values are code points, and `none`
-- where they are not visible ASCII. Of a response the status, the body and the headers that depend on
-- the request are kept. Which texts the `http` crate takes as the value of a header is a parameter.
pub mod Ranges
pub mod Requests
mod Tests
use acton_dx.Prelude.{
  ℕ, ◌+◌, ◌-◌, ◌≡◌, Bool, true, false, not, ◌&&◌, ◌||◌, Option, none, some, List, [], ◌∷◌, ◌++◌,
  String, string_discrete, ite, leb, ltb, if◌then◌else◌, Result, ok, err, length, take, drop, min,
}
use acton_dx.Prelude.Text.{Text, codes, text_eq, strip_prefix, split_once, show, parse_usize}
use acton_dx.Prelude.Words.{sub64}
use acton_dx.Storage.Types.{StorageError}

-- What `serve_file` reads of the metadata of a stored file.
pub record Metadata : Type 0 where
  pub filename : String
  pub content_type : String

-- `FileStorage`, as far as it is called, and `mime_guess`.
pub record Storage : Type 0 where
  pub get_metadata : String → Result Metadata StorageError
  pub retrieve : String → Result (List ℕ) StorageError
  pub mime_guess : String → String

-- The headers that are read: absent, or a value that may not be visible ASCII.
pub record Headers : Type 0 where
  pub if_none_match : Option (Option Text)
  pub range : Option (Option Text)
  pub if_range : Option (Option Text)

pub record FileResponse : Type 0 where
  pub status : ℕ
  pub body : List ℕ
  pub content_type : Option String
  pub etag : Option Text
  pub content_range : Option Text

pub data Response : Type 0 where
  not_modified : Response
  file : FileResponse → Response

pub data FileServingError : Type 0 where
  storage : StorageError → FileServingError
  invalid_range access_denied : FileServingError
  range_not_satisfiable : ℕ → FileServingError

-- The status and the `Content-Range` of an error's response.
unfoldable pub error_response : FileServingError → ℕ × Option Text
error_response (storage e) = (500, none)
error_response invalid_range = (400, none)
error_response access_denied = (403, none)
error_response (range_not_satisfiable size) = (416, some (codes "bytes */" ++ show size))

-- `Response::new(Body::empty())`
unfoldable pub empty_response : FileResponse
empty_response = record {
  status = 200;
  body = [];
  content_type = none;
  etag = none;
  content_range = none;
}

-- A header that is not valid makes the builder fail, and the response the empty one.
unfoldable pub build_file_response :
    (is_header_value : Text → Bool) → List ℕ → Text → String → Option (Text × ℕ) → FileResponse
build_file_response is_header_value body etag content_type none =
    if is_header_value (codes content_type) && is_header_value etag
    then record {
      status = 200;
      body = body;
      content_type = some content_type;
      etag = some etag;
      content_range = none;
    }
    else empty_response
build_file_response is_header_value body etag content_type (some (content_range, code)) =
    if is_header_value (codes content_type) && is_header_value etag && is_header_value content_range
    then record {
      status = code;
      body = body;
      content_type = some content_type;
      etag = some etag;
      content_range = some content_range;
    }
    else empty_response

-- `format!("bytes {start}-{end}/{file_size}")`
abbrev pub content_range_text : ℕ → ℕ → ℕ → Text
content_range_text start end size =
    codes "bytes " ++ (show start ++ b'-' ∷ (show end ++ b'/' ∷ show size))

-- The bounds that a range asks for, from the texts before and after its dash. `file_size - 1` wraps as
-- in a release build.
unfoldable pub bounds : ℕ → Text → Text → Option (ℕ × ℕ)
bounds size [] after = elim (parse_usize after) [
  | none ↦ none
  | some suffix_len ↦ some (size - suffix_len, sub64 size 1)
]
bounds size (c ∷ before) [] = elim (parse_usize (c ∷ before)) [
  | none ↦ none
  | some start ↦ some (start, sub64 size 1)
]
bounds size (c ∷ before) (d ∷ after) = elim (parse_usize (c ∷ before)) [
  | none ↦ none
  | some start ↦ elim (parse_usize (d ∷ after)) [
    | none ↦ none
    | some end ↦ some (start, min end (sub64 size 1))
  ]
]

-- The bounds of a `Range` header.
unfoldable pub parse_range : ℕ → Text → Option (ℕ × ℕ)
unfolding bounds
parse_range size range_str = elim (strip_prefix (codes "bytes=") range_str) [
  | none ↦ none
  | some range_spec ↦ elim (split_once b'-' range_spec) [
    | none ↦ none
    | some (before, after) ↦ bounds size before after
  ]
]

-- `data[start..=end]`; `none` is the panic of a slice out of bounds.
abbrev pub slice_inclusive {ℓ} : {A : Type ℓ} → ℕ → ℕ → List A → Option (List A)
slice_inclusive start end xs =
    if leb start (end + 1) && ltb end (length xs)
    then some (take (end + 1 - start) (drop start xs))
    else none

-- The checks and the response of `serve_range_request` for parsed bounds; `none` is a panic.
unfoldable pub serve_bounds :
    (is_header_value : Text → Bool)
    → List ℕ
    → Text
    → String
    → ℕ
    → ℕ
    → Option (Result FileResponse FileServingError)
unfolding build_file_response
serve_bounds is_header_value body etag content_type start end =
    if ltb end start || leb (length body) start
    then some (err (range_not_satisfiable (length body)))
    else elim (slice_inclusive start end body) [
      | none ↦ none
      | some part ↦ some (
          ok (
            build_file_response is_header_value part etag content_type
              (some (content_range_text start end (length body), 206))))
    ]

-- Whether `If-Range` is there and is not the file's tag.
abbrev pub is_stale : Text → Option (Option Text) → Bool
is_stale etag none = false
is_stale etag (some none) = true
is_stale etag (some (some v)) = not (text_eq v etag)

unfoldable pub serve_range_request :
    (is_header_value : Text → Bool)
    → List ℕ
    → Option Text
    → Text
    → String
    → Option (Option Text)
    → Option (Result FileResponse FileServingError)
unfolding serve_bounds parse_range build_file_response
serve_range_request is_header_value body range_header etag content_type if_range =
    if is_stale etag if_range
    then some (ok (build_file_response is_header_value body etag content_type none))
    else elim range_header [
      | none ↦ some (err invalid_range)
      | some range_str ↦ elim (parse_range (length body) range_str) [
        | none ↦ some (err invalid_range)
        | some (start, end) ↦ serve_bounds is_header_value body etag content_type start end
      ]
    ]

-- `format!(r#""{}-{}""#, file_id, data.len())`
abbrev pub etag_of : String → ℕ → Text
etag_of file_id size = b'"' ∷ (codes file_id ++ b'-' ∷ (show size ++ b'"' ∷ []))

-- The stored type, or the guess from the file name where it says nothing.
unfoldable pub content_type_of : Storage → Metadata → String
content_type_of s m =
    if ite (string_discrete m.content_type "") true false
      || ite (string_discrete m.content_type "application/octet-stream") true false
    then s.mime_guess m.filename
    else m.content_type

-- Whether `If-None-Match` is the file's tag.
abbrev pub matches_tag : Text → Option (Option Text) → Bool
matches_tag etag none = false
matches_tag etag (some none) = false
matches_tag etag (some (some v)) = text_eq v etag

-- The response to a request for a file that was retrieved; `none` is a panic.
unfoldable pub respond :
    (is_header_value : Text → Bool)
    → String
    → List ℕ
    → String
    → Headers
    → Option (Result Response FileServingError)
unfolding serve_range_request build_file_response
respond is_header_value file_id body content_type h =
    let etag = etag_of file_id (length body) in
    if matches_tag etag h.if_none_match then some (ok not_modified) else elim h.range [
      | none ↦ some (ok (file (build_file_response is_header_value body etag content_type none)))
      | some range_header ↦
          elim (serve_range_request is_header_value body range_header etag content_type
            h.if_range) [
              | none ↦ none
              | some (err e) ↦ some (err e)
              | some (ok r) ↦ some (ok (file r))
            ]
    ]

unfoldable pub serve_file :
    (is_header_value : Text → Bool)
    → Storage
    → String
    → Headers
    → Option (Result Response FileServingError)
unfolding respond content_type_of
serve_file is_header_value s file_id h = elim (s.get_metadata file_id) [
  | err e ↦ some (err (storage e))
  | ok m ↦ elim (s.retrieve file_id) [
    | err e ↦ some (err (storage e))
    | ok body ↦ respond is_header_value file_id body (content_type_of s m) h
  ]
]
