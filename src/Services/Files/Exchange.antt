-- ===== src/Services/Files/Exchange.antt =====
-- A file that is uploaded comes back.
use acton_dx.Prelude.{
  ℕ, suc, subst, ◌-◌, ◌^◌, ◌≡◌, ◌≤◌, ◌<◌, refl, sym, ap, ◌∙◌, Option, none, some, List, [], ◌∷◌,
  ◌++◌, String, string_discrete, length, take, drop, arith, All, length-drop, Result, ok, err,
}
use mathlib.Core.List.{append_assoc, append-nil}
use acton_dx.Prelude.Dict
use acton_dx.Prelude.Time.{ℤ}
use acton_dx.Prelude.Text.{Text, concat, codes}
use acton_dx.Services.Files.{
  Bytes, Disk, StoredMetadata, FileMetadata, to_proto, FileServiceImpl, FileError, UploadMeta,
  Stream, upload_metadata, chunk, no_data, get_storage_path, collect, after_write, after_create,
  stored_as, after_collect, after_create_dir, receive, answered, with_file, process_upload, upload,
}
use acton_dx.Services.Files.Download.{start_or, end_of, max_read, body_of, download}
use acton_dx.Services.Files.Contents.{IsChunk, wanted, chunks_lem}

-- The bytes that a stream of messages carries.
unfoldable pub carried : Stream → Bytes
carried [] = []
carried (ok (chunk c) ∷ stream) = c ++ carried stream
carried (ok (upload_metadata m) ∷ stream) = carried stream
carried (ok no_data ∷ stream) = carried stream
carried (err e ∷ stream) = carried stream

-- The part of a content that a request asks for.
abbrev pub requested : Option ℤ → Option ℤ → Bytes → Bytes
requested range_start none xs = drop (start_or range_start) xs
requested range_start (some v) xs =
    take (end_of v - start_or range_start) (drop (start_or range_start) xs)

abbrev pub InOrder : Option ℤ → Option ℤ → Type 0
InOrder range_start none = Unit
InOrder range_start (some v) = (start_or range_start ≤ end_of v) × (end_of v < 2 ^ 64)

-- What is written to a file that was just created is read back when a `flush` has succeeded.
abbrev pub Persists : {D : Type 0} → Disk D → Type 0
Persists {D} disk =
    (path : List Text) (content : Bytes) (d made written flushed : D)
    → disk.create path d ≡ ok made
    → disk.write_all path content made ≡ ok written
    → disk.flush path written ≡ ok flushed
    → disk.read path flushed ≡ ok content

collect-carried :
    (before : Bytes) (stream : Stream) (content : Bytes)
    → collect before stream ≡ ok content
    → content ≡ before ++ carried stream
unfolding collect carried
collect-carried before [] content h = ground (arith, append-nil before)
collect-carried before (err e ∷ stream) content h = absurd (ground arith)
collect-carried before (ok (upload_metadata m) ∷ stream) content h =
    collect-carried before stream content h
collect-carried before (ok (chunk c) ∷ stream) content h =
    collect-carried (before ++ c) stream content h ∙ append_assoc before c (carried stream)
collect-carried before (ok no_data ∷ stream) content h = collect-carried before stream content h

wanted-requested :
    (a b : Option ℤ) (xs : Bytes)
    → InOrder a b
    → wanted (max_read a b) 0 (drop (start_or a) xs) ≡ requested a b xs
unfolding max_read
wanted-requested a none xs h = refl
wanted-requested a (some v) xs h = ap (λ n. take n (drop (start_or a) xs)) (omega (arith, h.0, h.1))

body_of_lem :
    (reads : ℕ → ℕ) (size : ℕ) (a b : Option ℤ) (content : Bytes)
    → 0 < size
    → InOrder a b
    → (cs : List Bytes) × (body_of reads size a b (ok content) ≡ ok (some cs))
      × (concat cs ≡ requested a b content)
      × All (IsChunk size) cs
unfolding body_of
body_of_lem reads size a b content h order =
    let rest = drop (start_or a) content in
    let (cs, e, together, each) =
      chunks_lem (suc (length content)) reads size (max_read a b) 0 0 rest h
        (omega (arith, length-drop (start_or a) content)) in
    (cs, ap ok e, together ∙ wanted-requested a b content order, each)

module _ {D : Type 0} (disk : Disk D) where
  -- What a service knows of a file that it received.
  abbrev IsStored : (id : String) → Bytes → StoredMetadata → D → Type 0
  IsStored id content stored d =
      (stored.id ≡ id)
      × ((flushed : D)
          → disk.flush stored.path d ≡ ok flushed
          → disk.read stored.path flushed ≡ ok content)

  -- What a download of this range gives.
  abbrev pub Gives :
      FileServiceImpl → D → (ℕ → ℕ) → String → Option ℤ → Option ℤ → FileMetadata → Bytes → Type 0
  Gives s d reads id a b file content =
      (cs : List Bytes) × (download disk reads id a b s d
        ≡ ok (record { metadata = file; body = ok (some cs) }))
      × (concat cs ≡ requested a b content)
      × All (IsChunk s.chunk_size) cs

module _ {D : Type 0} (disk : Disk D) (calculate_checksum : Bytes → String)
    (persists : Persists disk) where
  after_write-IsStored :
      (stored stored' : StoredMetadata) (content : Bytes) (d made d' : D) (r : Result D Text)
      → disk.create stored.path d ≡ ok made
      → disk.write_all stored.path content made ≡ r
      → after_write stored made r ≡ (d', ok stored')
      → IsStored disk stored.id content stored' d'
  unfolding after_write
  after_write-IsStored stored stored' content d made d' (err e) c w h = absurd (ground arith)
  after_write-IsStored stored stored' content d made d' (ok written) c w h =
      let same_disk : written ≡ d' = ap (λ p. p.0) h in
      let same : stored ≡ stored' =
        ap (λ p. elim p.1 as (λ x. StoredMetadata) [ ok x ↦ x | err e ↦ stored ]) h in
      subst (λ x. IsStored disk stored.id content x d') same
        (
          refl,
          λ flushed f.
              persists stored.path content d made written flushed c w
                (subst (λ y. disk.flush stored.path y ≡ ok flushed) (sym same_disk) f),
        )

  after_create-IsStored :
      (stored stored' : StoredMetadata) (content : Bytes) (d d' : D) (r : Result D Text)
      → disk.create stored.path d ≡ r
      → after_create disk stored content d r ≡ (d', ok stored')
      → IsStored disk stored.id content stored' d'
  unfolding after_create
  after_create-IsStored stored stored' content d d' (err e) c h = absurd (ground arith)
  after_create-IsStored stored stored' content d d' (ok made) c h =
      after_write-IsStored stored stored' content d made d'
        (disk.write_all stored.path content made) c refl h

  after_collect-IsStored :
      (s : FileServiceImpl) (id : String) (now : ℕ) (meta : UploadMeta) (stream : Stream) (d d' : D)
      (stored : StoredMetadata) (r : Result Bytes FileError)
      → collect [] stream ≡ r
      → after_collect disk calculate_checksum s id now meta d r ≡ (d', ok stored)
      → IsStored disk id (carried stream) stored d'
  unfolding after_collect stored_as
  after_collect-IsStored s id now meta stream d d' stored (err e) c h = absurd (ground arith)
  after_collect-IsStored s id now meta stream d d' stored (ok content) c h =
      subst (λ x. IsStored disk id x stored d') (collect-carried [] stream content c)
        (after_create-IsStored (stored_as calculate_checksum s id now meta content) stored content d
          d' (disk.create (get_storage_path s id) d) refl h)

  after_create_dir-IsStored :
      (s : FileServiceImpl) (id : String) (now : ℕ) (meta : UploadMeta) (stream : Stream) (d d' : D)
      (stored : StoredMetadata) (r : Result D Text)
      → after_create_dir disk calculate_checksum s id now meta stream d r ≡ (d', ok stored)
      → IsStored disk id (carried stream) stored d'
  unfolding after_create_dir
  after_create_dir-IsStored s id now meta stream d d' stored (err e) h = absurd (ground arith)
  after_create_dir-IsStored s id now meta stream d d' stored (ok made) h =
      after_collect-IsStored s id now meta stream made d' stored (collect [] stream) refl h

  process_upload-IsStored :
      (s : FileServiceImpl) (id : String) (now : ℕ) (stream : Stream) (d d' : D)
      (stored : StoredMetadata)
      → process_upload disk calculate_checksum s id now stream d ≡ (d', ok stored)
      → IsStored disk id (carried stream) stored d'
  unfolding process_upload receive carried
  process_upload-IsStored s id now [] d d' stored h = absurd (ground arith)
  process_upload-IsStored s id now (err e ∷ stream) d d' stored h = absurd (ground arith)
  process_upload-IsStored s id now (ok (chunk c) ∷ stream) d d' stored h = absurd (ground arith)
  process_upload-IsStored s id now (ok no_data ∷ stream) d d' stored h = absurd (ground arith)
  process_upload-IsStored s id now (ok (upload_metadata meta) ∷ stream) d d' stored h =
      after_create_dir-IsStored s id now meta stream d d' stored
        (disk.create_dir_all (s.base_path ++ take 2 (codes id) ∷ []) d) h

  download-with_file :
      (s : FileServiceImpl) (id : String) (content : Bytes) (d : D) (stored : StoredMetadata)
      (reads : ℕ → ℕ) (a b : Option ℤ)
      → stored.id ≡ id
      → disk.read stored.path d ≡ ok content
      → 0 < s.chunk_size
      → InOrder a b
      → Gives disk (with_file stored s) d reads id a b (to_proto stored) content
  unfolding download
  download-with_file s id content d stored reads a b same known size order =
      let (cs, e, together, each) = body_of_lem reads s.chunk_size a b content size order in
      let there : Dict.lookup string_discrete id (with_file stored s).metadata ≡ some stored =
        ground (arith, same, Dict.lookup-insert string_discrete id stored.id stored s.metadata) in
      (cs, rw (download, there, known, e) refl, together, each)

  -- A file that the service received is given back: a download puts out the file's metadata, and then chunks
  -- of at least one byte and at most the configured size, which together are the requested range of the
  -- bytes that the upload carried. It does so however the file is cut by the reads, when the range ends
  -- after its start, the configured size is not 0, and what the upload wrote, which it does not wait for,
  -- has reached the file by the time of the download, as if a `flush` had succeeded.
  pub download-upload :
      (s : FileServiceImpl) (id : String) (now : ℕ) (stream : Stream) (d d' later : D)
      (stored : StoredMetadata) (reads : ℕ → ℕ) (a b : Option ℤ)
      → process_upload disk calculate_checksum s id now stream d ≡ (d', ok stored)
      → disk.flush stored.path d' ≡ ok later
      → 0 < s.chunk_size
      → InOrder a b
      → Gives disk
          (upload disk calculate_checksum s id now stream d).0
          later
          reads
          id
          a
          b
          (to_proto stored)
          (carried stream)
  unfolding upload answered
  download-upload s id now stream d d' later stored reads a b received flushed size order =
      let known = process_upload-IsStored s id now stream d d' stored received in
      subst (λ r. Gives disk (answered s r).0 later reads id a b (to_proto stored) (carried stream))
        (sym received)
        (download-with_file s id (carried stream) later stored reads a b known.0
          (known.1 later flushed) size order)
