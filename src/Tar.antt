-- ===== src/Tar.antt =====
-- cli-cpp-legacy/src/tar_writer.cpp: `createTarFromDirectory`. The walk over the directory is an
-- argument: its regular files, each with its relative path, its permissions and what a read gives.
pub mod Laws
mod Tests
use expo_builder_local.Prelude.{
  ℕ, zero, suc, ◌+◌, ◌*◌, ◌-◌, ◌/◌, ◌%◌, ◌^◌, Bytes, List, [], ◌∷◌, ◌++◌, Bool, Option, none, some,
  codes, text, length, take, replicate, ltb, leb, if◌then◌else◌,
}
use expo_builder_local.Exception.{Result, ok, err, runtime_error, ◌>>=◌}

abbrev pub block_size : ℕ
block_size = 512

-- The octal digits of `n`, given more fuel than `n` has digits.
unfoldable pub octal_fuel : ℕ → ℕ → Bytes
octal_fuel zero n = []
octal_fuel (suc f) n =
    let front = octal_fuel f (n / 8) in
    let last = b'0' + n % 8 in if ltb n 8 then last ∷ [] else front ++ last ∷ []

-- `%0*llo`: at least `width` octal digits
unfoldable pub octal_padded : ℕ → ℕ → Bytes
unfolding octal_fuel
octal_padded width n =
    let digits = octal_fuel (suc n) n in replicate (width - length digits) b'0' ++ digits

-- snprintf keeps `size - 1` characters and a NUL.
unfoldable pub octal_field : ℕ → ℕ → Bytes
octal_field size value = take (size - 1) (octal_padded (size - 1) value) ++ 0 ∷ []

unfoldable pub zeros : ℕ → Bytes
zeros n = replicate n 0

unfoldable pub sum_bytes : Bytes → ℕ
sum_bytes [] = 0
sum_bytes (c ∷ s) = c + sum_bytes s

-- The header with a given checksum field; `mode & 0777` is the remainder by 512.
unfoldable pub header_with : Bytes → Bytes → ℕ → ℕ → Bytes
header_with checksum path size mode =
    path
    ++ (zeros (100 - length path)
        ++ (octal_field 8 (mode % 512)
            ++ (octal_field 8 0
                ++ (octal_field 8 0
                    ++ (octal_field 12 size
                        ++ (octal_field 12 0
                            ++ (checksum
                                ++ (b'0' ∷ zeros 100
                                    ++ (codes "ustar" ++ (0 ∷ b'0' ∷ b'0' ∷ zeros 247))))))))))

-- 6 digits of "%06lo", a NUL and a space
unfoldable pub checksum_field : ℕ → Bytes
checksum_field checksum = take 6 (octal_padded 6 checksum) ++ 0 ∷ b' ' ∷ []

unfoldable pub make_header : Bytes → ℕ → ℕ → Result Bytes
make_header path size mode =
    if leb 100 (length path)
    then err
        (runtime_error (text "tar_writer: path too long for a plain ustar name field: " ++ path))
    else ok (
        header_with (checksum_field (sum_bytes (header_with (replicate 8 b' ') path size mode)))
          path size mode)

unfoldable pub padding : ℕ → ℕ
padding n = (block_size - n % block_size) % block_size

-- `appendPadded`, what it appends
unfoldable pub padded : Bytes → Bytes
padded content = content ++ zeros (padding (length content))

-- A file of the walk, with its path below the root and its whole path; no content where it cannot be
-- opened.
pub record Entry : Type 0 where
  pub whole_path : Bytes
  pub path : Bytes
  pub mode : ℕ
  pub content : Option Bytes

unfoldable pub entry_bytes : Bytes → Bytes → ℕ → Option Bytes → Result Bytes
entry_bytes whole_path path mode none =
    err (runtime_error (text "tar_writer: cannot open " ++ whole_path))
entry_bytes whole_path path mode (some content) = do
  header ← make_header path (length content) mode
  ok (header ++ padded content)

-- the loop over the files
unfoldable pub entries_bytes : List Entry → Result Bytes
entries_bytes [] = ok []
entries_bytes (entry ∷ entries) = do
  first ← entry_bytes entry.whole_path entry.path entry.mode entry.content
  rest ← entries_bytes entries
  ok (first ++ rest)

-- A path, whether it is an existing directory, and the files of the walk over it.
pub record Directory : Type 0 where
  pub is_dir : Bool
  pub root : Bytes
  pub entries : List Entry

unfoldable pub create_tar : Directory → Result Bytes
create_tar dir =
    let archive = (do all ← entries_bytes dir.entries; ok (all ++ zeros (2 * block_size))) in
    if dir.is_dir
    then archive
    else err (runtime_error (text "tar_writer: not a directory: " ++ dir.root))
