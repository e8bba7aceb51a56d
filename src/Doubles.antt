-- ===== src/Doubles.antt =====
-- The type `double` with the operations of it that the code calls. There are no floating-point
-- numbers here: the type and its operations are a parameter of what uses them.
use expo_builder_local.Prelude.{
  ℕ, ◌^◌, Bool, true, false, ◌&&◌, Bytes, [], ◌∷◌, ◌++◌, ◌≡◌, ◌⊎◌, inr, Option, none, some,
  if◌then◌else◌, All,
}
use expo_builder_local.Prelude.Int.{ℤ, pos}
use expo_builder_local.Decimal.{fits, print_int}
use expo_builder_local.Decimal.Laws.{IsDigit}
use expo_builder_local.Exception.{Exception}

pub record Doubles : Type 1 where
  pub Double : Type 0
  -- static_cast<double> of an integer
  pub of_int : ℤ → Double
  -- static_cast<long long>
  pub to_int : Double → ℤ
  -- std::isfinite, std::floor, std::fabs
  pub is_finite : Double → Bool
  pub floor : Double → Double
  pub fabs : Double → Double
  -- std::signbit
  pub signbit : Double → Bool
  -- std::fpclassify with FP_SUBNORMAL, which only hypotheses name
  pub is_subnormal : Double → Bool
  pub eq : Double → Double → Bool
  pub lt : Double → Double → Bool
  pub add : Double → Double → Double
  pub sub : Double → Double → Double
  pub mul : Double → Double → Double
  pub div : Double → Double → Double
  -- std::stod, which throws or returns, and snprintf with "%.17g"
  pub stod : Bytes → Exception ⊎ Double
  pub print_g17 : Double → Bytes

abbrev pub fraction_text : Option Bytes → Bytes
fraction_text none = []
fraction_text (some ds) = b'.' ∷ ds

abbrev pub exponent_text : Option (ℕ × Bytes) → Bytes
exponent_text none = []
exponent_text (some (sign, ds)) = b'e' ∷ sign ∷ ds

abbrev pub HasFraction : Option Bytes → Type 0
HasFraction none = Unit
HasFraction (some ds) = All IsDigit ds

abbrev pub HasExponent : Option (ℕ × Bytes) → Type 0
HasExponent none = Unit
HasExponent (some (sign, ds)) = ((sign ≡ b'+') ⊎ (sign ≡ b'-')) × All IsDigit ds

-- The text of a number: an optional minus sign, digits, an optional fraction, and an optional
-- exponent with its sign.
pub record IsNumeral (t : Bytes) : Type 0 where
  pub minus : Bool
  pub first : ℕ
  pub digits : Bytes
  pub fraction : Option Bytes
  pub exponent : Option (ℕ × Bytes)
  pub first_digit : IsDigit first
  pub more_digits : All IsDigit digits
  pub fraction_digits : HasFraction fraction
  pub exponent_digits : HasExponent exponent
  pub spelled :
      t
      ≡ (if minus then b'-' ∷ [] else [])
        ++ ((first ∷ digits) ++ (fraction_text fraction ++ exponent_text exponent))

module _ (fp : Doubles) where
  open fp use {Double}

  -- -0.0, which "%lld" prints without its sign
  unfoldable pub is_negative_zero : Double → Bool
  is_negative_zero n = fp.signbit n && fp.eq n (fp.of_int (pos 0))

  -- What the C++ standard says of printing a finite double and reading it back, and of integers
  -- below 10 ^ 15, which a double holds exactly. Of the text of a subnormal number nothing is said:
  -- std::stod may throw std::out_of_range for it.
  pub record PrintLaws : Type 0 where
    pub g17_numeral : (n : Double) → fp.is_finite n ≡ true → IsNumeral (fp.print_g17 n)
    pub stod_g17 :
        (n : Double)
        → fp.is_finite n ≡ true
        → fp.is_subnormal n ≡ false
        → fp.stod (fp.print_g17 n) ≡ inr n
    pub stod_int : (z : ℤ) → fits (10 ^ 15) z ≡ true → fp.stod (print_int z) ≡ inr (fp.of_int z)
    pub to_int_fits :
        (n : Double)
        → fp.is_finite n ≡ true
        → fp.lt (fp.fabs n) (fp.of_int (pos (10 ^ 15))) ≡ true
        → fits (10 ^ 15) (fp.to_int n) ≡ true
    pub of_int-to_int :
        (n : Double)
        → fp.is_finite n ≡ true
        → fp.eq n (fp.floor n) ≡ true
        → fp.lt (fp.fabs n) (fp.of_int (pos (10 ^ 15))) ≡ true
        → is_negative_zero n ≡ false
        → fp.of_int (fp.to_int n) ≡ n
