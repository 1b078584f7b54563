-- ===== src/Services/Files/Tests.antt =====
-- A file of five bytes, sent in two chunks, on a disk of one file and of what is not yet
-- written to it.
use acton_dx.Prelude.{
  ℕ, ◌≡◌, ◌≤◌, ◌<◌, ◌^◌, ◌-◌, refl, sym, Option, none, some, List, [], ◌∷◌, ◌++◌, String, Result,
  ok, err, arith, length, min,
}
use mathlib.Core.List.{Perm}
use acton_dx.Prelude.Time.{pos}
use acton_dx.Prelude.Text.{codes, concat}
use acton_dx.Services.Files.{
  Bytes, Disk, FileMetadata, FileServiceImpl, StoredMetadata, Stream, upload_metadata, chunk,
  no_data, to_proto, process_upload, upload, get_storage_path,
}
use acton_dx.Services.Files.Download.{start_of, end_of}
use acton_dx.Services.Files.Listing.{matching, limit_of, list_files, IsSorted, list_files-newest}
use acton_dx.Services.Files.Exchange.{Persists, InOrder, Gives, carried, download-upload}

abbrev disk : Disk (Bytes × Bytes)
disk = record {
  create_dir_all = λ path d. ok d;
  create = λ path d. ok ([], []);
  write_all = λ path content d. ok (d.0, d.1 ++ content);
  flush = λ path d. ok (d.0 ++ d.1, []);
  read = λ path d. ok d.0;
  remove_file = λ path d. ok ([], []);
}

disk-Persists : Persists disk
disk-Persists path content d made written flushed c w f = grind arith

abbrev checksum : Bytes → String
checksum content = "0"

abbrev service : FileServiceImpl
service = record {
  base_path = codes "/var/files" ∷ [];
  metadata = [];
  public_base_url = codes "/files";
  signing_key = none;
  chunk_size = 2;
}

abbrev stream : Stream
stream =
    ok (
      upload_metadata (record {
        filename = codes "a.bin";
        content_type = "application/octet-stream";
        metadata = [];
      }))
    ∷ ok (chunk (1 ∷ 2 ∷ 3 ∷ []))
    ∷ ok no_data
    ∷ ok (chunk (4 ∷ 5 ∷ []))
    ∷ []

abbrev stored : StoredMetadata
stored = record {
  id = "67e5";
  filename = codes "a.bin";
  content_type = "application/octet-stream";
  size = 5;
  checksum = "0";
  created_at = 9;
  updated_at = 9;
  path = codes "/var/files" ∷ codes "67" ∷ codes "67e5" ∷ [];
  custom_metadata = [];
}

received :
    process_upload disk checksum service "67e5" 9 stream ([], [])
    ≡ (([], 1 ∷ 2 ∷ 3 ∷ 4 ∷ 5 ∷ []), ok stored)
unfolding process_upload acton_dx.Services.Files.receive acton_dx.Services.Files.after_create_dir
    acton_dx.Services.Files.after_collect acton_dx.Services.Files.collect
    acton_dx.Services.Files.after_write acton_dx.Services.Files.after_create
    acton_dx.Services.Files.stored_as get_storage_path
received = refl

in_order : InOrder (some (pos 1)) (some (pos 4))
unfolding start_of end_of
in_order = (omega arith, omega arith)

-- The bytes from 1 up to 4, whatever the reads give.
download-upload_example :
    Gives disk
      (upload disk checksum service "67e5" 9 stream ([], [])).0
      (1 ∷ 2 ∷ 3 ∷ 4 ∷ 5 ∷ [], [])
      (λ i. i)
      "67e5"
      (some (pos 1))
      (some (pos 4))
      (to_proto stored)
      (carried stream)
download-upload_example =
    download-upload disk checksum disk-Persists service "67e5" 9 stream ([], [])
      ([], 1 ∷ 2 ∷ 3 ∷ 4 ∷ 5 ∷ []) (1 ∷ 2 ∷ 3 ∷ 4 ∷ 5 ∷ [], []) stored (λ i. i) (some (pos 1))
      (some (pos 4)) received refl (omega arith) in_order

-- Of two files with the prefix, the newer is listed.
abbrev two_files : FileServiceImpl
two_files = record service {
  metadata =
      ("67e5", stored)
      ∷ ("f916", record stored { id = "f916"; created_at = 12 })
      ∷ ("a04c", record stored { id = "a04c"; filename = codes "b.bin" })
      ∷ [];
}

newest_listed :
    list_files (some (codes "a")) (some (pos 1)) two_files
    ≡ to_proto (record stored { id = "f916"; created_at = 12 }) ∷ []
unfolding list_files limit_of acton_dx.Services.Files.Listing.sort matching
    acton_dx.Services.Files.Listing.has_prefix acton_dx.Prelude.Text.strip_prefix
    acton_dx.Services.Files.Listing.place to_proto
newest_listed = refl

list_files-newest_example :
    (rest : List FileMetadata) × Perm
      (matching (some (codes "a")) two_files)
      (list_files (some (codes "a")) (some (pos 1)) two_files ++ rest)
    × IsSorted (list_files (some (codes "a")) (some (pos 1)) two_files ++ rest)
    × (length (list_files (some (codes "a")) (some (pos 1)) two_files)
        ≡ min (limit_of (some (pos 1))) (length (matching (some (codes "a")) two_files)))
list_files-newest_example = list_files-newest (some (codes "a")) (some (pos 1)) two_files
