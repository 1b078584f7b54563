-- ===== src/Services/Files/Download.antt =====
-- services/file-service/src/services/file.rs: the stream of a download. A read of a file gives at least one
-- byte before the end of the file, and at most as many as were asked for; how many is an argument. A read
-- or a change of the position that fails is left out.
use acton_dx.Prelude.{
  ℕ, zero, suc, ◌+◌, ◌-◌, ◌^◌, Option, none, some, List, [], ◌∷◌, ◌++◌, String, string_discrete,
  length, take, drop, min, ◌==◌, if◌then◌else◌, Result, ok, err,
}
use acton_dx.Prelude.Dict
use acton_dx.Prelude.Words.{sub64}
use acton_dx.Prelude.Time.{ℤ, pos, negsuc}
use acton_dx.Prelude.Text.{Text, codes}
use acton_dx.Services.Files.{
  Bytes, Disk, FileMetadata, FileServiceImpl, Status, not_found, internal, to_proto,
}

-- `u64::try_from(..).unwrap_or(0)`
unfoldable pub start_of : ℤ → ℕ
start_of (pos n) = n
start_of (negsuc n) = 0

-- `u64::try_from(..).unwrap_or(u64::MAX)`
unfoldable pub end_of : ℤ → ℕ
end_of (pos n) = n
end_of (negsuc n) = 2 ^ 64 - 1

abbrev pub start_or : Option ℤ → ℕ
start_or none = 0
start_or (some v) = start_of v

-- The bytes to read, if the request has an end.
unfoldable pub max_read : Option ℤ → Option ℤ → Option ℕ
max_read range_start none = none
max_read range_start (some v) = some (sub64 (end_of v) (start_or range_start))

-- How much the next read asks for.
unfoldable pub to_read : (chunk_size : ℕ) → Option ℕ → (total_read : ℕ) → ℕ
to_read chunk_size none total_read = chunk_size
to_read chunk_size (some most) total_read = min chunk_size (most - total_read)

-- The loop on the bytes behind the position in the file; read number `i` gives `reads i + 1` bytes where it
-- may. `none` is for a fuel that does not suffice.
unfoldable pub chunks :
    (fuel : ℕ)
    → (reads : ℕ → ℕ) → (chunk_size : ℕ) → Option ℕ
    → (i total_read : ℕ) → Bytes
    → Option (List Bytes)
chunks zero reads chunk_size most i total_read rest = none
chunks (suc fuel) reads chunk_size most i total_read rest =
    let asked = to_read chunk_size most total_read in
    let bytes_read = min (suc (reads i)) (min asked (length rest)) in
    let later =
      chunks fuel reads chunk_size most (suc i) (total_read + bytes_read) (drop bytes_read rest) in
    if asked == 0
    then some []
    else if bytes_read == 0
    then some []
    else elim later [ none ↦ none | some cs ↦ some (take bytes_read rest ∷ cs) ]

-- What a stream yields: the metadata, then the chunks or an error.
pub record Downloaded : Type 0 where
  pub metadata : FileMetadata
  pub body : Result (Option (List Bytes)) Status

-- The stream of an opened file; its length bounds the number of its chunks.
unfoldable pub body_of :
    (ℕ → ℕ)
    → (chunk_size : ℕ) → (range_start range_end : Option ℤ) → Result Bytes Text
    → Result (Option (List Bytes)) Status
body_of reads chunk_size range_start range_end (err e) =
    err (internal (codes "Failed to open file: " ++ e))
body_of reads chunk_size range_start range_end (ok file) = ok (
    chunks (suc (length file)) reads chunk_size (max_read range_start range_end) 0 0
      (drop (start_or range_start) file))

unfoldable pub download :
    {D : Type 0}
    → Disk D
    → (ℕ → ℕ)
    → (id : String) → (range_start range_end : Option ℤ) → FileServiceImpl
    → D
    → Result Downloaded Status
download disk reads id range_start range_end s d =
    elim (Dict.lookup string_discrete id s.metadata) [
      | none ↦ err not_found
      | some stored ↦ ok (record {
        metadata = to_proto stored;
        body = body_of reads s.chunk_size range_start range_end (disk.read stored.path d);
      })
    ]
