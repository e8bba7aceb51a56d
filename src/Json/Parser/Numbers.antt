-- ===== src/Json/Parser/Numbers.antt =====
-- `parseNumber` scans a printed number to its end, and reads it back.
use expo_builder_local.Prelude.{
  ℕ, ◌^◌, ◌≡◌, refl, ap, sym, suc, ◌∙◌, ◌⊎◌, inl, inr, Bool, true, false, ◌||◌, Bytes, [], ◌∷◌,
  ◌++◌, append_assoc, append-nil, Option, none, some, ◌==◌, if◌then◌else◌, arith, All, Bool-cases,
}
use expo_builder_local.Prelude.Int.{ℤ, pos, negsuc}
use expo_builder_local.Exception.{ok}
use expo_builder_local.Doubles.{
  Doubles, IsNumeral, PrintLaws, is_negative_zero, fraction_text, exponent_text, HasFraction,
  HasExponent,
}
use expo_builder_local.Decimal.{is_digit, print_int}
use expo_builder_local.Decimal.Laws.{IsDigit, print_nat_cons}
use expo_builder_local.Json.Value.{number}
use expo_builder_local.Json.Dump.{dump_number, is_integral}
use expo_builder_local.Json.Parser.{
  span_digits, span_sign, span_fraction, span_exponent, span_number, convert, parse_number,
}

-- The text does not go on with a character of a number.
abbrev pub IsNumberEnd : Bytes → Type 0
IsNumberEnd [] = Unit
IsNumberEnd (c ∷ s) = (is_digit c || c == b'.' || c == b'e' || c == b'E') ≡ false

span_digits-append :
    (ds rest : Bytes)
    → All IsDigit ds
    → span_digits rest ≡ ([], rest)
    → span_digits (ds ++ rest) ≡ (ds, rest)
unfolding span_digits is_digit
span_digits-append [] rest h e = e
span_digits-append (d ∷ ds) rest (hd, h) e = ground (arith, span_digits-append ds rest h e)

span_digits_end : (s : Bytes) → IsNumberEnd s → span_digits s ≡ ([], s)
unfolding span_digits
span_digits_end [] h = refl
span_digits_end (c ∷ s) h = ground arith

span_exponent-text :
    (e : Option (ℕ × Bytes)) (rest : Bytes)
    → HasExponent e
    → IsNumberEnd rest
    → span_exponent (exponent_text e ++ rest) ≡ (exponent_text e, rest)
span_exponent-text none [] he h = unfold span_exponent in refl
span_exponent-text none (c ∷ s) he h = unfold span_exponent in ground arith
span_exponent-text (some (sign, ds)) rest (hs, hds) h =
    unfold span_exponent span_sign in
    ground (arith, span_digits-append ds rest hds (span_digits_end rest h))

span_digits_exponent :
    (e : Option (ℕ × Bytes)) (rest : Bytes)
    → IsNumberEnd rest
    → span_digits (exponent_text e ++ rest) ≡ ([], exponent_text e ++ rest)
span_digits_exponent none rest h = span_digits_end rest h
span_digits_exponent (some (sign, ds)) rest h = unfold span_digits is_digit in refl

span_digits_fraction :
    (fr : Option Bytes) (e : Option (ℕ × Bytes)) (rest : Bytes)
    → IsNumberEnd rest
    → span_digits (fraction_text fr ++ (exponent_text e ++ rest))
      ≡ ([], fraction_text fr ++ (exponent_text e ++ rest))
span_digits_fraction none e rest h = span_digits_exponent e rest h
span_digits_fraction (some ds) e rest h = unfold span_digits is_digit in refl

span_fraction-text :
    (fr : Option Bytes) (e : Option (ℕ × Bytes)) (rest : Bytes)
    → HasFraction fr
    → IsNumberEnd rest
    → span_fraction (fraction_text fr ++ (exponent_text e ++ rest))
      ≡ (fraction_text fr, exponent_text e ++ rest)
unfolding span_fraction
span_fraction-text none none [] hf h = refl
span_fraction-text none none (c ∷ s) hf h = ground arith
span_fraction-text none (some (sign, ds)) rest hf h = refl
span_fraction-text (some fs) e rest hf h =
    ground
      (arith, span_digits-append fs (exponent_text e ++ rest) hf (span_digits_exponent e rest h))

abbrev minus_text : Bool → Bytes
minus_text b = if b then b'-' ∷ [] else []

span_sign-minus :
    (b : Bool) (d : ℕ) (s : Bytes)
    → IsDigit d
    → span_sign (minus_text b ++ (d ∷ s)) ≡ (minus_text b, d ∷ s)
unfolding span_sign
span_sign-minus true d s h = refl
span_sign-minus false d s h = ground arith

-- The scan takes the whole of a numeral, and no more.
span_number-numeral :
    (t rest : Bytes) → IsNumeral t → IsNumberEnd rest → span_number (t ++ rest) ≡ (t, rest)
unfolding span_number
span_number-numeral t rest n h = rw n.spelled (
    rw (append_assoc, append_assoc, append_assoc)
      (ground (
        arith,
        span_sign-minus n.minus n.first
            (n.digits ++ (fraction_text n.fraction ++ (exponent_text n.exponent ++ rest)))
            n.first_digit,
        span_digits-append (n.first ∷ n.digits)
            (fraction_text n.fraction ++ (exponent_text n.exponent ++ rest))
            (n.first_digit, n.more_digits) (span_digits_fraction n.fraction n.exponent rest h),
        span_fraction-text n.fraction n.exponent rest n.fraction_digits h,
        span_exponent-text n.exponent rest n.exponent_digits h,
      )))

pub print_int-IsNumeral : (z : ℤ) → IsNumeral (print_int z)
unfolding print_int
print_int-IsNumeral (pos n) =
    let (d, ds, p, hd, hds) = print_nat_cons n in
    record {
      minus = false;
      first = d;
      digits = ds;
      fraction = none;
      exponent = none;
      first_digit = hd;
      more_digits = hds;
      fraction_digits = tt;
      exponent_digits = tt;
      spelled = p ∙ sym (append-nil (d ∷ ds));
    }
print_int-IsNumeral (negsuc n) =
    let (d, ds, p, hd, hds) = print_nat_cons (suc n) in
    record {
      minus = true;
      first = d;
      digits = ds;
      fraction = none;
      exponent = none;
      first_digit = hd;
      more_digits = hds;
      fraction_digits = tt;
      exponent_digits = tt;
      spelled = rw p (ap (λ l. b'-' ∷ l) (sym (append-nil (d ∷ ds))));
    }

-- A numeral starts with a digit or a minus sign.
pub IsNumeral-cons :
    (t : Bytes) → IsNumeral t → (c : ℕ) × (s : Bytes) × (t ≡ c ∷ s) × (IsDigit c ⊎ (c ≡ b'-'))
IsNumeral-cons t n =
    let tail = fraction_text n.fraction ++ exponent_text n.exponent in
    elim (Bool-cases n.minus) [
      | inl e ↦ (b'-', (n.first ∷ n.digits) ++ tail, n.spelled ∙ rw e, inr refl)
      | inr e ↦ (n.first, n.digits ++ tail, n.spelled ∙ rw e, inl n.first_digit)
    ]

module _ (fp : Doubles) where
  open fp use {Double}

  -- A number that JSON text can carry: finite, not -0.0, and not subnormal.
  abbrev pub IsReadable : Double → Type 0
  IsReadable n =
      (fp.is_finite n ≡ true) × (is_negative_zero fp n ≡ false) × (fp.is_subnormal n ≡ false)

  is_integral_parts :
      (n : Double)
      → is_integral fp n ≡ true
      → (fp.eq n (fp.floor n) ≡ true) × (fp.lt (fp.fabs n) (fp.of_int (pos (10 ^ 15))) ≡ true)
  unfolding is_integral
  is_integral_parts n h = ground arith

module _ (fp : Doubles) (laws : PrintLaws fp) where
  open fp use {Double}

  pub dump_number-IsNumeral : (n : Double) → IsReadable fp n → IsNumeral (dump_number fp n)
  unfolding dump_number
  dump_number-IsNumeral n (h, _, _) = elim (Bool-cases (is_integral fp n)) [
    | inl e ↦ rw e (print_int-IsNumeral (fp.to_int n))
    | inr e ↦ rw e (laws.g17_numeral n h)
  ]

  stod-dump_number : (n : Double) → IsReadable fp n → fp.stod (dump_number fp n) ≡ inr n
  unfolding dump_number
  stod-dump_number n (h, z, s) = elim (Bool-cases (is_integral fp n)) [
    | inl e ↦
        let (whole, small) = is_integral_parts fp n e in
        rw e (
          laws.stod_int (fp.to_int n) (laws.to_int_fits n h small)
          ∙ ap inr (laws.of_int-to_int n h whole small z))
    | inr e ↦ rw e (laws.stod_g17 n h s)
  ]

  convert-stod :
      (t rest : Bytes) (n : Double)
      → IsNumeral t
      → fp.stod t ≡ inr n
      → convert fp t rest ≡ ok (number n, rest)
  unfolding convert
  convert-stod [] rest n h e = let (c, s, p, _) = IsNumeral-cons [] h in absurd (cc)
  convert-stod (c ∷ t) rest n h e = rw e

  -- `parseNumber` reads back what `dumpNumber` writes for a finite number that is not -0.0 and not subnormal, and
  -- leaves what follows.
  pub parse_number-dump_number :
      (n : Double) (rest : Bytes)
      → IsReadable fp n
      → IsNumberEnd rest
      → parse_number fp (dump_number fp n ++ rest) ≡ ok (number n, rest)
  unfolding parse_number
  parse_number-dump_number n rest r h =
      rw (span_number-numeral _ rest (dump_number-IsNumeral n r) h)
        (convert-stod _ rest n (dump_number-IsNumeral n r) (stod-dump_number n r))
