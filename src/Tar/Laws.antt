-- ===== src/Tar/Laws.antt =====
-- The layout of an archive: headers of 512 bytes, contents filled up to blocks.
use expo_builder_local.Prelude.{
  ℕ, suc, ◌+◌, ◌-◌, ◌%◌, ◌<◌, ◌≤◌, Bytes, List, [], ◌∷◌, ◌++◌, Option, none, some, ◌≡◌, refl, sym,
  ◌∙◌, arith, length, take, replicate, length-append, length-replicate, length-take,
  take-length-append, leb, Bool-cases, inl, inr,
}
use expo_builder_local.Exception.{ok, ok_inj, >>=-eq-ok}
use expo_builder_local.Tar.{
  octal_fuel, octal_padded, octal_field, zeros, header_with, checksum_field, sum_bytes, make_header,
  padding, padded, Entry, entry_bytes, entries_bytes, Directory, create_tar,
}

octal_padded_long : (w n : ℕ) → w ≤ length (octal_padded w n)
unfolding octal_padded
octal_padded_long w n =
    let ds = octal_fuel (suc n) n in
    omega (
      arith,
      length-append (replicate (w - length ds) b'0') ds,
      length-replicate {A = ℕ} (w - length ds) b'0',
    )

length-octal_field : (w n : ℕ) → 0 < w → length (octal_field w n) ≡ w
unfolding octal_field
length-octal_field w n h = omega (
  arith,
  length-append (take (w - 1) (octal_padded (w - 1) n)) (0 ∷ []),
  length-take (w - 1) (octal_padded (w - 1) n),
  octal_padded_long (w - 1) n,
)

length-checksum_field : (n : ℕ) → length (checksum_field n) ≡ 8
unfolding checksum_field
length-checksum_field n = omega (
  arith,
  length-append (take 6 (octal_padded 6 n)) (0 ∷ b' ' ∷ []),
  length-take 6 (octal_padded 6 n),
  octal_padded_long 6 n,
)

length-zeros : (n : ℕ) → length (zeros n) ≡ n
unfolding zeros
length-zeros n = length-replicate n 0

length-header_with :
    (checksum path : Bytes) (size mode : ℕ)
    → length checksum ≡ 8
    → length path < 100
    → length (header_with checksum path size mode) ≡ 512
unfolding header_with
length-header_with checksum path size mode hc hp =
    rw
      (
        length-append, length-append, length-append, length-append, length-append, length-append,
        length-append, length-append, length-append, length-append,
      )
      (omega (
        arith,
        length-octal_field 8 (mode % 512) (omega arith),
        length-octal_field 8 0 (omega arith),
        length-octal_field 12 size (omega arith),
        length-octal_field 12 0 (omega arith),
        length-zeros (100 - length path),
        length-zeros 100,
        length-zeros 247,
      ))

header_with_front :
    (checksum path : Bytes) (size mode : ℕ)
    → (t : Bytes) × (header_with checksum path size mode ≡ path ++ t)
unfolding header_with
header_with_front checksum path size mode = (_, refl)

make_header_ok :
    (path h : Bytes) (size mode : ℕ)
    → make_header path size mode ≡ ok h
    → (length h ≡ 512) × ((t : Bytes) × (h ≡ path ++ t))
unfolding make_header
make_header_ok path h size mode e = elim (Bool-cases (leb 100 (length path))) [
  | inl p ↦ absurd (cc (rw p at e))
  | inr p ↦
      let sum = sum_bytes (header_with (replicate 8 b' ') path size mode) in
      let q : header_with (checksum_field sum) path size mode ≡ h = ok_inj (rw p at e) in
      rw (← q) (
        length-header_with (checksum_field sum) path size mode (length-checksum_field sum)
            (ground arith),
        header_with_front (checksum_field sum) path size mode,
      )
]

length-padded :
    (content : Bytes) → length (padded content) ≡ length content + padding (length content)
unfolding padded
length-padded content = omega (
  arith,
  length-append content (zeros (padding (length content))),
  length-zeros (padding (length content)),
)

padding_fills : (n : ℕ) → (n + padding n) % 512 ≡ 0
unfolding padding
padding_fills n = omega arith

padding-lt : (n : ℕ) → padding n < 512
unfolding padding
padding-lt n = omega arith

-- The bytes of a file that can be opened are a header of 512 bytes that starts with the path, then the
-- content, then fewer than 512 zero bytes, and are whole blocks of 512 bytes.
pub entry_bytes_lem :
    (whole_path path content b : Bytes) (mode : ℕ)
    → entry_bytes whole_path path mode (some content) ≡ ok b
    → (header : Bytes) × (n : ℕ) × (b ≡ header ++ (content ++ replicate n 0))
      × (length header ≡ 512)
      × (take (length path) header ≡ path)
      × (n < 512)
      × (length b % 512 ≡ 0)
unfolding entry_bytes padded zeros
entry_bytes_lem whole_path path content b mode e =
    let (h, e1, e2) = >>=-eq-ok (make_header path (length content) mode) _ e in
    let (hl, (t, hp)) = make_header_ok path h (length content) mode e1 in
    let q : h ++ padded content ≡ b = ok_inj e2 in
    let len : length b ≡ 512 + length content + padding (length content) =
      rw (← q) (omega (arith, length-append h (padded content), length-padded content, hl)) in
    (
      h,
      padding (length content),
      sym q,
      hl,
      rw hp (take-length-append path t),
      padding-lt (length content),
      omega (arith, len, padding_fills (length content)),
    )

entries_blocks :
    (entries : List Entry) (b : Bytes) → entries_bytes entries ≡ ok b → length b % 512 ≡ 0
unfolding entries_bytes
entries_blocks [] b e = let q : [] ≡ b = ok_inj e in rw (← q) refl
entries_blocks (entry ∷ entries) b e =
    let (first, e1, f1) =
      >>=-eq-ok (entry_bytes entry.whole_path entry.path entry.mode entry.content) _ e in
    let (rest, e2, f2) = >>=-eq-ok (entries_bytes entries) _ f1 in
    let q : first ++ rest ≡ b = ok_inj f2 in
    let one = entry_blocks entry.whole_path entry.path entry.mode entry.content first e1 in
    let more = entries_blocks entries rest e2 in
    rw (← q) (omega (arith, length-append first rest, one, more))
  where
    entry_blocks :
        (whole_path path : Bytes) (mode : ℕ) (content : Option Bytes) (b : Bytes)
        → entry_bytes whole_path path mode content ≡ ok b
        → length b % 512 ≡ 0
    entry_blocks whole_path path mode (some content) b e =
        (entry_bytes_lem whole_path path content b mode e).6
    entry_blocks whole_path path mode none b e = absurd (unfold entry_bytes in cc e)

-- Every archive that is returned consists of whole blocks of 512 bytes and ends with two blocks of
-- zeros.
pub create_tar_blocks :
    (dir : Directory) (b : Bytes)
    → create_tar dir ≡ ok b
    → (length b % 512 ≡ 0) × ((all : Bytes) × (b ≡ all ++ replicate 1024 0))
unfolding create_tar
create_tar_blocks dir b e = elim (Bool-cases dir.is_dir) [
  | inr p ↦ absurd (cc (rw p at e))
  | inl p ↦
      let (all, e1, e2) = >>=-eq-ok (entries_bytes dir.entries) _ (rw p at e) in
      let q : all ++ zeros 1024 ≡ b = ok_inj e2 in
      (
        rw (← q) (
            omega (
              arith,
              length-append all (zeros 1024),
              length-zeros 1024,
              entries_blocks dir.entries all e1,
            )),
        (all, sym q ∙ unfold zeros in refl),
      )
]
