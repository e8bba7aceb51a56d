-- ===== src/Version.antt =====
-- cli-cpp-legacy/src/version_compare.cpp: `isVersionNewer`.
pub mod Order
pub mod Dotted
pub mod Numbers
mod Tests
use expo_builder_local.Prelude.{
  ℕ, zero, suc, Bool, true, false, Bytes, List, [], ◌∷◌, ◌++◌, ◌==◌, if◌then◌else◌, codes, ◌≡◌,
  refl,
}
use expo_builder_local.Prelude.Int.{ℤ, pos, negsuc, ltb_ℤ}
use expo_builder_local.Exception.{Result, ok, err, stuck}
use expo_builder_local.Decimal.{stoi}

pub strip_leading_v : Bytes → Bytes
strip_leading_v [] = []
strip_leading_v (c ∷ s) = if c == b'v' then s else c ∷ s

-- What std::getline(ss, part, '.') yields: the pieces between the dots, and no empty piece behind a
-- last dot.
split_dots : Bytes → Bytes → List Bytes
split_dots [] [] = []
split_dots (p ∷ part) [] = (p ∷ part) ∷ []
split_dots part (c ∷ s) =
    let next = split_dots [] s in
    let same = split_dots (part ++ c ∷ []) s in if c == b'.' then part ∷ next else same

-- std::stoi, and 0 where it throws
part_value : Bytes → ℤ
part_value s = elim (stoi s) [ ok z ↦ z | err e ↦ pos 0 | stuck ↦ pos 0 ]

part_values : List Bytes → List ℤ
part_values [] = []
part_values (p ∷ ps) = part_value p ∷ part_values ps

pub version_parts : Bytes → List ℤ
version_parts s = part_values (split_dots [] s)

-- `if (av != bv) return av > bv;`, and the later rounds
pub first_differs : ℤ → ℤ → Bool → Bool
first_differs a b later = if ltb_ℤ b a then true else if ltb_ℤ a b then false else later

-- The loop over `i`, with 0 for a part that is not there.
pub newer_parts : List ℤ → List ℤ → Bool
newer_parts [] [] = false
newer_parts (a ∷ as') [] = first_differs a (pos 0) (newer_parts as' [])
newer_parts [] (b ∷ bs) = first_differs (pos 0) b (newer_parts [] bs)
newer_parts (a ∷ as') (b ∷ bs) = first_differs a b (newer_parts as' bs)

unfoldable pub is_version_newer : Bytes → Bytes → Bool
unfolding strip_leading_v split_dots part_value part_values version_parts newer_parts first_differs
    stoi
is_version_newer a b =
    newer_parts (version_parts (strip_leading_v a)) (version_parts (strip_leading_v b))
