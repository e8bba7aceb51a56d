-- ===== src/Version/Numbers.antt =====
-- `isVersionNewer` against an independent description, on dotted numbers.
use expo_builder_local.Prelude.{
  ℕ, zero, suc, ◌+◌, ◌<◌, ◌≤◌, Bool, true, false, Bytes, List, [], ◌∷◌, ◌≡◌, refl, sym, ◌∙◌, ◌↔◌,
  arith, All, ◌⊎◌, inl, inr, length,
}
use expo_builder_local.Prelude.Int.{ℤ, ◌<ℤ◌, eq_of_parts}
use expo_builder_local.Version.{strip_leading_v, newer_parts, first_differs, is_version_newer}
use expo_builder_local.Version.Order.{newer_lem}
use expo_builder_local.Version.Dotted.{
  join_dots, IsInt, version_parts-join_dots, part, rest_of, newer_step, part-suc, IsGreater,
  IsGreater-here, IsGreater-later,
}

first_differs_cases :
    (a b : ℤ) (later : Bool)
    → first_differs a b later ≡ true
    → (b <ℤ a) ⊎ ((a ≡ b) × (later ≡ true))
unfolding first_differs
first_differs_cases a b later h = ground (arith, eq_of_parts a b)

first_differs_here : (a b : ℤ) (later : Bool) → b <ℤ a → first_differs a b later ≡ true
unfolding first_differs
first_differs_here a b later h = ground arith

first_differs_same :
    (a b : ℤ) (later : Bool) → a ≡ b → later ≡ true → first_differs a b later ≡ true
unfolding first_differs
first_differs_same a b later e h = ground arith

length-rest_of : (xs : List ℤ) (n : ℕ) → length xs ≤ suc n → length (rest_of xs) ≤ n
unfolding rest_of
length-rest_of [] n h = omega arith
length-rest_of (x ∷ xs) n h = omega arith

newer_none : (xs ys : List ℤ) → length xs ≤ 0 → length ys ≤ 0 → newer_parts xs ys ≡ false
unfolding newer_parts
newer_none [] [] hx hy = refl
newer_none (x ∷ xs) ys hx hy = absurd (omega arith)
newer_none [] (y ∷ ys) hx hy = absurd (omega arith)

-- `n` rounds are enough for lists of at most `n` parts.
newer→IsGreater :
    (n : ℕ) (xs ys : List ℤ)
    → length xs ≤ n
    → length ys ≤ n
    → newer_parts xs ys ≡ true
    → IsGreater xs ys
newer→IsGreater zero xs ys hx hy h = absurd (cc (newer_none xs ys hx hy, h))
newer→IsGreater (suc n) xs ys hx hy h =
    elim (first_differs_cases (part xs 0) (part ys 0) _ (sym (newer_step xs ys) ∙ h)) [
      | inl lt ↦ IsGreater-here xs ys lt
      | inr (e, later) ↦ IsGreater-later xs ys e (
          newer→IsGreater n (rest_of xs) (rest_of ys) (length-rest_of xs n hx)
            (length-rest_of ys n hy) later)
    ]

greater_at :
    (i : ℕ) (xs ys : List ℤ)
    → ((j : ℕ) → j < i → part xs j ≡ part ys j)
    → part ys i <ℤ part xs i
    → newer_parts xs ys ≡ true
greater_at zero xs ys same h = newer_step xs ys ∙ first_differs_here (part xs 0) (part ys 0) _ h
greater_at (suc i) xs ys same h =
    let later =
      greater_at i (rest_of xs) (rest_of ys)
        (λ j lt. sym (part-suc xs j) ∙ same (suc j) (omega arith) ∙ part-suc ys j)
        (rw (part-suc xs, part-suc ys) at h) in
    newer_step xs ys ∙ first_differs_same (part xs 0) (part ys 0) _ (same 0 (omega arith)) later

strip_v : (s : Bytes) → strip_leading_v (b'v' ∷ s) ≡ s
unfolding strip_leading_v
strip_v s = refl

-- For versions spelled "v" and then `int`s joined by dots, `isVersionNewer a b` holds just when
-- the numbers of `a` are greater than those of `b` at the first place at which the two differ,
-- where a number that is not there counts as 0.
pub is_version_newer-IsGreater :
    (xs ys : List ℤ)
    → All IsInt xs
    → All IsInt ys
    → is_version_newer (b'v' ∷ join_dots xs) (b'v' ∷ join_dots ys) ≡ true ↔ IsGreater xs ys
is_version_newer-IsGreater xs ys hx hy =
    let e : is_version_newer (b'v' ∷ join_dots xs) (b'v' ∷ join_dots ys) ≡ newer_parts xs ys =
      rw
        (
          newer_lem (b'v' ∷ join_dots xs) (b'v' ∷ join_dots ys),
          strip_v (join_dots xs),
          strip_v (join_dots ys),
          version_parts-join_dots xs hx,
          version_parts-join_dots ys hy,
        )
        refl in
    (
      λ h. newer→IsGreater (length xs + length ys) xs ys (omega arith) (omega arith) (sym e ∙ h),
      λ g. e ∙ greater_at g.index xs ys g.same g.greater,
    )
