-- ===== src/Version/Order.antt =====
-- `isVersionNewer` is a strict order on versions; parts that are not there count as 0.
use expo_builder_local.Prelude.{
  true, false, Bytes, List, [], ◌∷◌, ◌++◌, ◌≡◌, refl, ◌⊎◌, inl, inr, arith,
}
use expo_builder_local.Prelude.Int.{ℤ, pos}
use expo_builder_local.Version.{
  strip_leading_v, version_parts, newer_parts, first_differs, is_version_newer,
}

newer_parts_irrefl : (xs : List ℤ) → newer_parts xs xs ≡ false
unfolding newer_parts first_differs
newer_parts_irrefl [] = refl
newer_parts_irrefl (x ∷ xs) = ground (arith, newer_parts_irrefl xs)

newer_parts_asymm : (xs ys : List ℤ) → newer_parts xs ys ≡ true → newer_parts ys xs ≡ false
unfolding newer_parts first_differs
newer_parts_asymm [] [] h = cc
newer_parts_asymm (x ∷ xs) [] h = ground (arith, newer_parts_asymm xs [])
newer_parts_asymm [] (y ∷ ys) h = ground (arith, newer_parts_asymm [] ys)
newer_parts_asymm (x ∷ xs) (y ∷ ys) h = ground (arith, newer_parts_asymm xs ys)

newer_parts_trans :
    (xs ys zs : List ℤ)
    → newer_parts xs ys ≡ true
    → newer_parts ys zs ≡ true
    → newer_parts xs zs ≡ true
unfolding newer_parts first_differs
newer_parts_trans [] [] [] h k = h
newer_parts_trans [] [] (z ∷ zs) h k = cc
newer_parts_trans [] (y ∷ ys) [] h k = ground (arith, newer_parts_trans [] ys [])
newer_parts_trans [] (y ∷ ys) (z ∷ zs) h k = ground (arith, newer_parts_trans [] ys zs)
newer_parts_trans (x ∷ xs) [] [] h k = h
newer_parts_trans (x ∷ xs) [] (z ∷ zs) h k = ground (arith, newer_parts_trans xs [] zs)
newer_parts_trans (x ∷ xs) (y ∷ ys) [] h k = ground (arith, newer_parts_trans xs ys [])
newer_parts_trans (x ∷ xs) (y ∷ ys) (z ∷ zs) h k = ground (arith, newer_parts_trans xs ys zs)

newer_parts_split :
    (xs ys zs : List ℤ)
    → newer_parts xs zs ≡ true
    → (newer_parts xs ys ≡ true) ⊎ (newer_parts ys zs ≡ true)
unfolding newer_parts first_differs
newer_parts_split [] [] [] h = cc
newer_parts_split [] [] (z ∷ zs) h = inr h
newer_parts_split [] (y ∷ ys) [] h = cc
newer_parts_split [] (y ∷ ys) (z ∷ zs) h = ground (arith, newer_parts_split [] ys zs)
newer_parts_split (x ∷ xs) [] [] h = inl h
newer_parts_split (x ∷ xs) [] (z ∷ zs) h = ground (arith, newer_parts_split xs [] zs)
newer_parts_split (x ∷ xs) (y ∷ ys) [] h = ground (arith, newer_parts_split xs ys [])
newer_parts_split (x ∷ xs) (y ∷ ys) (z ∷ zs) h = ground (arith, newer_parts_split xs ys zs)

pub newer_lem :
    (a b : Bytes)
    → is_version_newer a b
      ≡ newer_parts (version_parts (strip_leading_v a)) (version_parts (strip_leading_v b))
unfolding is_version_newer
newer_lem a b = refl

-- `isVersionNewer` is a strict weak order on texts: no version is newer than itself, of two versions
-- at most one is newer than the other, newer is transitive, and whatever is newer than a third
-- version is newer than any version that is not itself newer than the third.
pub is_version_newer_order :
    (a b c : Bytes)
    → (is_version_newer a a ≡ false)
      × (is_version_newer a b ≡ true → is_version_newer b a ≡ false)
      × (is_version_newer a b ≡ true → is_version_newer b c ≡ true → is_version_newer a c ≡ true)
      × (is_version_newer a c ≡ true → is_version_newer b c ≡ false → is_version_newer a b ≡ true)
is_version_newer_order a b c =
    let x = version_parts (strip_leading_v a) in
    let y = version_parts (strip_leading_v b) in
    let z = version_parts (strip_leading_v c) in
    rw (newer_lem a a, newer_lem a b, newer_lem b a, newer_lem b c, newer_lem a c)
      (
        newer_parts_irrefl x,
        newer_parts_asymm x y,
        newer_parts_trans x y z,
        λ h k. ground (arith, newer_parts_split x y z h),
      )

-- Zeros behind the last part make no difference.
newer_parts_zeros :
    (xs ys : List ℤ)
    → (newer_parts (xs ++ pos 0 ∷ []) ys ≡ newer_parts xs ys)
      × (newer_parts ys (xs ++ pos 0 ∷ []) ≡ newer_parts ys xs)
unfolding newer_parts first_differs
newer_parts_zeros [] [] = (refl, refl)
newer_parts_zeros [] (y ∷ ys) = (refl, refl)
newer_parts_zeros (x ∷ xs) [] = ground (arith, newer_parts_zeros xs [])
newer_parts_zeros (x ∷ xs) (y ∷ ys) = ground (arith, newer_parts_zeros xs ys)
