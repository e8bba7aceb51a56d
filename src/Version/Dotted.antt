-- ===== src/Version/Dotted.antt =====
-- `isVersionNewer` on dotted numbers compares the numbers, the first that differ.
use expo_builder_local.Prelude.{
  ℕ, zero, suc, ◌<◌, ◌^◌, true, Bytes, List, [], ◌∷◌, ◌++◌, append_assoc, append-nil, ◌≡◌, refl, ap,
  ap, ◌∙◌, ◌≢◌, arith, All,
}
use expo_builder_local.Prelude.Int.{ℤ, pos, negsuc, ◌<ℤ◌}
use expo_builder_local.Exception.{ok}
use expo_builder_local.Decimal.{print_int, print_nat, stoi, fits, read_bounded}
use expo_builder_local.Decimal.Laws.{
  IsDigit, print_nat-IsDigit, print_nat_cons, read_bounded-print_int,
}
use expo_builder_local.Version.{
  split_dots, part_value, part_values, first_differs, version_parts, newer_parts,
}

-- "1.2.3" from its parts
pub join_dots : List ℤ → Bytes
join_dots [] = []
join_dots (x ∷ []) = print_int x
join_dots (x ∷ y ∷ ys) = print_int x ++ (b'.' ∷ join_dots (y ∷ ys))

abbrev LacksDot : Bytes → Type 0
LacksDot = All (λ c. c ≢ b'.')

digits-LacksDot : (s : Bytes) → All IsDigit s → LacksDot s
digits-LacksDot [] h = tt
digits-LacksDot (c ∷ s) (hc, h) = (λ e. absurd (omega arith), digits-LacksDot s h)

print_int-LacksDot : (z : ℤ) → LacksDot (print_int z)
unfolding print_int
print_int-LacksDot (pos n) = digits-LacksDot (print_nat n) (print_nat-IsDigit n)
print_int-LacksDot (negsuc n) =
    (λ e. absurd (omega arith), digits-LacksDot (print_nat (suc n)) (print_nat-IsDigit (suc n)))

split_dots-append :
    (p part s : Bytes)
    → LacksDot p
    → split_dots part (p ++ (b'.' ∷ s)) ≡ (part ++ p) ∷ split_dots [] s
unfolding split_dots
split_dots-append [] part s h = rw append-nil
split_dots-append (c ∷ p) part s (hc, h) =
    ground (arith, split_dots-append p (part ++ c ∷ []) s h, append_assoc part (c ∷ []) p)

split_dots_last :
    (p : Bytes) (x : ℕ) (part : Bytes)
    → LacksDot p
    → split_dots (x ∷ part) p ≡ (x ∷ (part ++ p)) ∷ []
unfolding split_dots
split_dots_last [] x part h = rw append-nil
split_dots_last (c ∷ p) x part (hc, h) =
    ground (arith, split_dots_last p x (part ++ c ∷ []) h, append_assoc part (c ∷ []) p)

split_dots_whole :
    (c : ℕ) (p : Bytes) → c ≢ b'.' → LacksDot p → split_dots [] (c ∷ p) ≡ (c ∷ p) ∷ []
unfolding split_dots
split_dots_whole c p hc h = ground (arith, split_dots_last p c [] h)

print_int-cons : (z : ℤ) → (c : ℕ) × (s : Bytes) × (print_int z ≡ c ∷ s)
unfolding print_int
print_int-cons (pos n) = let (d, ds, p, _, _) = print_nat_cons n in (d, ds, p)
print_int-cons (negsuc n) = (b'-', print_nat (suc n), refl)

split_dots-print_int : (z : ℤ) → split_dots [] (print_int z) ≡ print_int z ∷ []
split_dots-print_int z =
    let (c, s, p) = print_int-cons z in
    let (hc, hs) : LacksDot (c ∷ s) = rw p at (print_int-LacksDot z) in
    rw p (split_dots_whole c s hc hs)

abbrev pub IsInt : ℤ → Type 0
IsInt z = fits (2 ^ 31) z ≡ true

stoi_lem : (s : Bytes) → stoi s ≡ read_bounded (2 ^ 31) s
unfolding stoi
stoi_lem s = refl

part_value-print_int : (z : ℤ) → IsInt z → part_value (print_int z) ≡ z
unfolding part_value
part_value-print_int z h =
    let e : read_bounded (2 ^ 31) (print_int z) ≡ ok z =
      rw (append-nil, h) at (read_bounded-print_int (2 ^ 31) z [] tt) in
    rw (stoi_lem (print_int z) ∙ e, part_value)

-- The parts of dotted numbers are the numbers.
pub version_parts-join_dots : (xs : List ℤ) → All IsInt xs → version_parts (join_dots xs) ≡ xs
unfolding version_parts part_values join_dots
version_parts-join_dots [] h = unfold split_dots in refl
version_parts-join_dots (x ∷ []) (hx, _) = rw (split_dots-print_int x, part_value-print_int x hx)
version_parts-join_dots (x ∷ y ∷ ys) (hx, h) =
    rw
      (
        split_dots-append (print_int x) [] (join_dots (y ∷ ys)) (print_int-LacksDot x),
        part_value-print_int x hx,
      )
      (ap (λ l. x ∷ l) (version_parts-join_dots (y ∷ ys) h))

-- Part `i` of a version, 0 where there is none.
unfoldable pub part : List ℤ → ℕ → ℤ
part [] i = pos 0
part (x ∷ xs) zero = x
part (x ∷ xs) (suc i) = part xs i

unfoldable pub rest_of : List ℤ → List ℤ
rest_of [] = []
rest_of (x ∷ xs) = xs

pub part-suc : (xs : List ℤ) (i : ℕ) → part xs (suc i) ≡ part (rest_of xs) i
unfolding part rest_of
part-suc [] i = refl
part-suc (x ∷ xs) i = refl

pub newer_step :
    (xs ys : List ℤ)
    → newer_parts xs ys
      ≡ first_differs (part xs 0) (part ys 0) (newer_parts (rest_of xs) (rest_of ys))
unfolding newer_parts first_differs part rest_of
newer_step [] [] = refl
newer_step [] (y ∷ ys) = refl
newer_step (x ∷ xs) [] = refl
newer_step (x ∷ xs) (y ∷ ys) = refl

-- The first list is greater at the first part at which the two differ.
pub record IsGreater (xs ys : List ℤ) : Type 0 where
  pub index : ℕ
  pub same : (j : ℕ) → j < index → part xs j ≡ part ys j
  pub greater : part ys index <ℤ part xs index

pub IsGreater-here : (xs ys : List ℤ) → part ys 0 <ℤ part xs 0 → IsGreater xs ys
IsGreater-here xs ys h = record { index = 0; same = λ j lt. absurd (omega arith); greater = h }

pub IsGreater-later :
    (xs ys : List ℤ) → part xs 0 ≡ part ys 0 → IsGreater (rest_of xs) (rest_of ys) → IsGreater xs ys
IsGreater-later xs ys e g = record {
  index = suc g.index;
  same = λ j. same j;
  greater = rw (part-suc xs, part-suc ys) g.greater;
}
  where
    same : (j : ℕ) → j < suc g.index → part xs j ≡ part ys j
    same zero lt = e
    same (suc j) lt = rw (part-suc xs, part-suc ys) (g.same j (omega arith))
