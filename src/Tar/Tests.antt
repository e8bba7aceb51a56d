-- ===== src/Tar/Tests.antt =====
-- The theorems at work on concrete files.
use expo_builder_local.Prelude.{
  ℕ, ◌<◌, ◌%◌, Bytes, [], ◌∷◌, ◌++◌, true, some, codes, length, take, replicate, ◌≡◌, refl,
}
use expo_builder_local.Exception.{Result, ok}
use expo_builder_local.Tar.{Directory, entry_bytes, make_header, create_tar, entries_bytes}
use expo_builder_local.Tar.Laws.{entry_bytes_lem, create_tar_blocks}

value : Result Bytes → Bytes
value (ok b) = b
value _ = []

abbrev file : Bytes
file = value (entry_bytes (codes "/r/a.txt") (codes "a.txt") 420 (some (codes "hello")))

written : entry_bytes (codes "/r/a.txt") (codes "a.txt") 420 (some (codes "hello")) ≡ ok file
unfolding entry_bytes make_header value
written = refl

entry_bytes_lem_example :
    (header : Bytes) × (n : ℕ) × (file ≡ header ++ (codes "hello" ++ replicate n 0))
    × (length header ≡ 512)
    × (take 5 header ≡ codes "a.txt")
    × (n < 512)
    × (length file % 512 ≡ 0)
entry_bytes_lem_example =
    entry_bytes_lem (codes "/r/a.txt") (codes "a.txt") (codes "hello") file 420 written

abbrev dir : Directory
dir = record {
  is_dir = true;
  root = codes "/r";
  entries =
      record { whole_path = codes "/r/a"; path = codes "a"; mode = 511; content = some [] } ∷ [];
}

abbrev archive : Bytes
archive = value (create_tar dir)

packed : create_tar dir ≡ ok archive
unfolding create_tar entries_bytes entry_bytes make_header value
packed = refl

create_tar_blocks_example :
    (length archive % 512 ≡ 0) × ((all : Bytes) × (archive ≡ all ++ replicate 1024 0))
create_tar_blocks_example = create_tar_blocks dir archive packed
