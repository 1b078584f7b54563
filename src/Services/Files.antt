-- ===== src/Services/Files.antt =====
-- services/file-service/src/services/file.rs: the file service. The file system is a parameter, as are the
-- hash of a content and that of a signature. Ids and times are arguments. A text is ASCII where it is cut.
pub mod Download
pub mod Contents
pub mod Exchange
pub mod Listing
mod Tests
use acton_dx.Prelude.{
  ℕ, Bool, true, false, Option, none, some, List, [], ◌∷◌, ◌++◌, String, string_discrete, length,
  take, min, ◌-◌, ◌^◌, Result, ok, err, if◌then◌else◌,
}
use acton_dx.Prelude.Dict
use acton_dx.Prelude.Time.{ℤ, pos, negsuc}
use acton_dx.Prelude.Text.{Text, codes, show}

abbrev pub Bytes : Type 0
Bytes = List ℕ

abbrev pub FileError : Type 0
FileError = Text

-- Of `tokio::fs`; the errors are shown as texts. A path is the list of its parts. What `write_all` is
-- given may still be on its way to the file when it returns: `flush` waits for it, and says if it failed.
-- The service does not call `flush`. `read` opens a file and has its content.
pub record Disk (D : Type 0) : Type 0 where
  pub create_dir_all : List Text → D → Result D Text
  pub create : List Text → D → Result D Text
  pub write_all : List Text → Bytes → D → Result D Text
  pub flush : List Text → D → Result D Text
  pub read : List Text → D → Result Bytes Text
  pub remove_file : List Text → D → Result D Text

pub record StoredMetadata : Type 0 where
  pub id : String
  pub filename : Text
  pub content_type : String
  pub size : ℕ
  pub checksum : String
  pub created_at : ℕ
  pub updated_at : ℕ
  pub path : List Text
  pub custom_metadata : List (String × String)

-- What `to_proto` leaves: all but the path.
pub record FileMetadata : Type 0 where
  pub id : String
  pub filename : Text
  pub content_type : String
  pub size : ℕ
  pub checksum : String
  pub created_at : ℕ
  pub updated_at : ℕ
  pub metadata : List (String × String)

unfoldable pub to_proto : StoredMetadata → FileMetadata
to_proto s = record {
  id = s.id;
  filename = s.filename;
  content_type = s.content_type;
  size = s.size;
  checksum = s.checksum;
  created_at = s.created_at;
  updated_at = s.updated_at;
  metadata = s.custom_metadata;
}

pub record FileServiceImpl : Type 0 where
  pub base_path : List Text
  pub metadata : List (String × StoredMetadata)
  pub public_base_url : Text
  pub signing_key : Option Text
  pub chunk_size : ℕ

-- The codes of `Status` that occur, and the message of an internal error.
pub data Status : Type 0 where
  not_found : Status
  internal : Text → Status

unfoldable pub get_storage_path : FileServiceImpl → String → List Text
get_storage_path s id = s.base_path ++ take 2 (codes id) ∷ codes id ∷ []

pub record UploadMeta : Type 0 where
  pub filename : Text
  pub content_type : String
  pub metadata : List (String × String)

-- The messages of an upload; a message may be empty, and the stream may fail.
pub data UploadRequest : Type 0 where
  upload_metadata : UploadMeta → UploadRequest
  chunk : Bytes → UploadRequest
  no_data : UploadRequest

abbrev pub Stream : Type 0
Stream = List (Result UploadRequest Text)

unfoldable pub stream_error : Text → FileError
stream_error e = codes "Stream error: " ++ e

-- The loop over the chunks: what is behind the first message, onto what was read before.
unfoldable pub collect : Bytes → Stream → Result Bytes FileError
unfolding stream_error
collect file_data [] = ok file_data
collect file_data (err e ∷ stream) = err (stream_error e)
collect file_data (ok (upload_metadata m) ∷ stream) = collect file_data stream
collect file_data (ok (chunk c) ∷ stream) = collect (file_data ++ c) stream
collect file_data (ok no_data ∷ stream) = collect file_data stream

-- The size is `i64::try_from(..).unwrap_or(i64::MAX)`.
unfoldable pub stored_as :
    (Bytes → String)
    → FileServiceImpl
    → (id : String) → (now : ℕ) → UploadMeta
    → Bytes
    → StoredMetadata
stored_as calculate_checksum s id now meta file_data = record {
  id = id;
  filename = meta.filename;
  content_type = meta.content_type;
  size = min (length file_data) (2 ^ 63 - 1);
  checksum = calculate_checksum file_data;
  created_at = now;
  updated_at = now;
  path = get_storage_path s id;
  custom_metadata = meta.metadata;
}

abbrev pub with_file : StoredMetadata → FileServiceImpl → FileServiceImpl
with_file stored s = record s { metadata = Dict.insert string_discrete stored.id stored s.metadata }

module _ {D : Type 0} where
  unfoldable pub after_write :
      StoredMetadata → D → Result D Text → D × Result StoredMetadata FileError
  after_write stored d (err e) = (d, err (codes "Failed to write file: " ++ e))
  after_write stored d (ok written) = (written, ok stored)

  unfoldable pub answered :
      FileServiceImpl
      → D × Result StoredMetadata FileError
      → FileServiceImpl × D × Result FileMetadata FileError
  answered s (d, err e) = (s, d, err e)
  answered s (d, ok stored) = (with_file stored s, d, ok (to_proto stored))

module _ {D : Type 0} (disk : Disk D) where
  unfoldable pub after_create :
      StoredMetadata → Bytes → D → Result D Text → D × Result StoredMetadata FileError
  after_create stored file_data d (err e) = (d, err (codes "Failed to create file: " ++ e))
  after_create stored file_data d (ok made) =
      after_write stored made (disk.write_all stored.path file_data made)

module _ {D : Type 0} (disk : Disk D) (calculate_checksum : Bytes → String) where
  unfoldable pub after_collect :
      FileServiceImpl
      → (id : String) → (now : ℕ) → UploadMeta
      → D
      → Result Bytes FileError
      → D × Result StoredMetadata FileError
  after_collect s id now meta d (err e) = (d, err e)
  after_collect s id now meta d (ok file_data) =
      after_create disk (stored_as calculate_checksum s id now meta file_data) file_data d
        (disk.create (get_storage_path s id) d)

  unfoldable pub after_create_dir :
      FileServiceImpl
      → (id : String) → (now : ℕ) → UploadMeta
      → Stream
      → D
      → Result D Text
      → D × Result StoredMetadata FileError
  after_create_dir s id now meta stream d (err e) =
      (d, err (codes "Failed to create directory: " ++ e))
  after_create_dir s id now meta stream d (ok made) =
      after_collect s id now meta made (collect [] stream)

  -- What follows the first message: the directory is made before the chunks are read, and the file is
  -- written after the last.
  unfoldable pub receive :
      FileServiceImpl
      → (id : String) → (now : ℕ) → UploadMeta
      → Stream
      → D
      → D × Result StoredMetadata FileError
  receive s id now meta stream d =
      after_create_dir s id now meta stream d
        (disk.create_dir_all (s.base_path ++ take 2 (codes id) ∷ []) d)

  unfoldable pub process_upload :
      FileServiceImpl → (id : String) → (now : ℕ) → Stream → D → D × Result StoredMetadata FileError
  unfolding stream_error
  process_upload s id now [] d = (d, err (codes "Empty upload stream"))
  process_upload s id now (err e ∷ stream) d = (d, err (stream_error e))
  process_upload s id now (ok (upload_metadata meta) ∷ stream) d = receive s id now meta stream d
  process_upload s id now (ok (chunk c) ∷ stream) d =
      (d, err (codes "First message must be metadata"))
  process_upload s id now (ok no_data ∷ stream) d =
      (d, err (codes "First message must be metadata"))

  -- `upload`, with the file or the error of its answer
  unfoldable pub upload :
      FileServiceImpl
      → (id : String) → (now : ℕ) → Stream
      → D
      → FileServiceImpl × D × Result FileMetadata FileError
  upload s id now stream d = answered s (process_upload s id now stream d)

module _ {D : Type 0} (disk : Disk D) where
  -- An error of the file system is logged, and the disk is as it was.
  abbrev removed : Result D Text → D → D
  removed (ok d') d = d'
  removed (err e) d = d

  unfoldable pub delete : String → FileServiceImpl → D → FileServiceImpl × D × Bool
  delete id s d =
      let s' = record s { metadata = Dict.remove string_discrete id s.metadata } in
      elim (Dict.lookup string_discrete id s.metadata) [
        | none ↦ (s', d, false)
        | some stored ↦ (s', removed (disk.remove_file stored.path d) d, true)
      ]

unfoldable pub get_metadata : String → FileServiceImpl → Result FileMetadata Status
get_metadata id s = elim (Dict.lookup string_discrete id s.metadata) [
  | none ↦ err not_found
  | some stored ↦ ok (to_proto stored)
]

unfoldable pub get_public_url : String → FileServiceImpl → Result Text Status
get_public_url id s = elim (Dict.lookup string_discrete id s.metadata) [
  | none ↦ err not_found
  | some stored ↦ ok (s.public_base_url ++ b'/' ∷ codes id)
]
