-- ===== src/Decimal/Laws.antt =====
-- Printed numbers consist of digits and are read back.
use expo_builder_local.Prelude.{
  ℕ, zero, suc, ◌+◌, ◌/◌, ◌%◌, ◌<◌, ◌≤◌, ◌≡◌, refl, ◌∙◌, Bool, true, false, Bytes, [], ◌∷◌, ◌++◌,
  append_assoc, ltb, if◌then◌else◌, arith, All, All-append, Bool-cases, inl, inr,
}
use expo_builder_local.Prelude.Int.{ℤ, pos, negsuc}
use expo_builder_local.Exception.{ok, err, out_of_range, ◌>>=◌}
use expo_builder_local.Decimal.{
  is_digit, digits_fuel, print_nat, print_int, is_space, read_digits, neg, read_int, fits,
  read_bounded,
}

abbrev pub IsDigit : ℕ → Type 0
IsDigit c = (b'0' ≤ c) × (c ≤ b'9')

-- The text does not go on with a digit.
abbrev pub IsDigitFree : Bytes → Type 0
IsDigitFree [] = Unit
IsDigitFree (c ∷ s) = is_digit c ≡ false

digits_fuel-IsDigit : (f n : ℕ) → All IsDigit (digits_fuel f n)
unfolding digits_fuel
digits_fuel-IsDigit zero n = tt
digits_fuel-IsDigit (suc f) n = elim (Bool-cases (ltb n 10)) [
  | inl h ↦ rw h (omega arith)
  | inr h ↦
      rw h (
        All-append IsDigit (digits_fuel f (n / 10)) _ (digits_fuel-IsDigit f (n / 10))
          (omega arith))
]

pub print_nat-IsDigit : (n : ℕ) → All IsDigit (print_nat n)
unfolding print_nat
print_nat-IsDigit n = digits_fuel-IsDigit (suc n) n

read_digits-digits_fuel :
    (f n : ℕ) (seen : Bool) (s : Bytes)
    → n < f
    → read_digits 0 seen (digits_fuel f n ++ s) ≡ read_digits n true s
unfolding digits_fuel
read_digits-digits_fuel zero n seen s h = absurd (omega arith)
read_digits-digits_fuel (suc f) n seen s h = elim (Bool-cases (ltb n 10)) [
  | inl e ↦ rw e (unfold read_digits in ground arith)
  | inr e ↦ rw e (
      rw (append_assoc, read_digits-digits_fuel f (n / 10) seen _ (ground arith))
        (unfold read_digits in ground arith))
]

read_digits_stop : (n : ℕ) (s : Bytes) → IsDigitFree s → read_digits n true s ≡ ok n
unfolding read_digits
read_digits_stop n [] h = refl
read_digits_stop n (c ∷ s) h = rw h

pub read_digits-print_nat :
    (n : ℕ) (s : Bytes) → IsDigitFree s → read_digits 0 false (print_nat n ++ s) ≡ ok n
unfolding print_nat
read_digits-print_nat n s h =
    read_digits-digits_fuel (suc n) n false s (omega arith) ∙ read_digits_stop n s h

digits_fuel_cons :
    (f n : ℕ)
    → n < f
    → (d : ℕ) × (ds : Bytes) × (digits_fuel f n ≡ d ∷ ds) × IsDigit d × All IsDigit ds
unfolding digits_fuel
digits_fuel_cons zero n h = absurd (omega arith)
digits_fuel_cons (suc f) n h = elim (Bool-cases (ltb n 10)) [
  | inl e ↦ (b'0' + n % 10, [], rw e, omega arith, tt)
  | inr e ↦
      let (d, ds, p, hd, hds) = digits_fuel_cons f (n / 10) (ground arith) in
      (d, ds ++ (b'0' + n % 10) ∷ [], rw (e, p), hd, All-append IsDigit ds _ hds (omega arith))
]

-- A printed natural number is a digit and more digits.
pub print_nat_cons :
    (n : ℕ) → (d : ℕ) × (ds : Bytes) × (print_nat n ≡ d ∷ ds) × IsDigit d × All IsDigit ds
unfolding print_nat
print_nat_cons n = digits_fuel_cons (suc n) n (omega arith)

-- A digit is neither a space nor a sign, so a text that starts with one is read as digits.
read_int_digit :
    (d : ℕ) (s : Bytes)
    → IsDigit d
    → read_int (d ∷ s) ≡ (do n ← read_digits 0 false (d ∷ s); ok (pos n))
unfolding read_int is_space
read_int_digit d s h = ground arith

read_int_minus : (s : Bytes) → read_int (b'-' ∷ s) ≡ (do n ← read_digits 0 false s; ok (neg n))
unfolding read_int is_space
read_int_minus s = refl

-- A printed integer is read back, also where a text that does not start with a digit follows.
pub read_int-print_int : (z : ℤ) (s : Bytes) → IsDigitFree s → read_int (print_int z ++ s) ≡ ok z
unfolding print_int
read_int-print_int (pos n) s h =
    let (d, ds, p, hd, _) = print_nat_cons n in
    let q : read_digits 0 false (d ∷ (ds ++ s)) ≡ ok n = rw p at (read_digits-print_nat n s h) in
    rw p (rw (read_int_digit d (ds ++ s) hd, q))
read_int-print_int (negsuc n) s h =
    rw (read_int_minus, read_digits-print_nat (suc n) s h) (unfold neg in refl)

-- A bounded read of a printed integer, where no digit follows it, returns it if the type holds it
-- and throws out_of_range if not.
pub read_bounded-print_int :
    (half : ℕ) (z : ℤ) (s : Bytes)
    → IsDigitFree s
    → read_bounded half (print_int z ++ s) ≡ (if fits half z then ok z else err out_of_range)
unfolding read_bounded
read_bounded-print_int half z s h = rw (read_int-print_int z s h)
