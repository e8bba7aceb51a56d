-- ===== src/Json/Integers.antt =====
-- Integers in the place of doubles, for the runs of the tests: they keep the laws of printing.
use expo_builder_local.Prelude.{
  ◌+◌, ◌^◌, Bytes, [], append-nil, ◌≡◌, ◌⊎◌, refl, true, false, not, ◌&&◌, inl, inr, arith,
}
use expo_builder_local.Prelude.Int.{ℤ, pos, negsuc, pos_part, neg_part, ltb_ℤ}
use expo_builder_local.Exception.{Exception, ok, err, stuck, invalid_argument}
use expo_builder_local.Doubles.{Doubles, PrintLaws}
use expo_builder_local.Decimal.{print_int, read_int, fits}
use expo_builder_local.Decimal.Laws.{read_int-print_int}
use expo_builder_local.Json.Parser.Numbers.{print_int-IsNumeral}

abbrev pub read_double : Bytes → Exception ⊎ ℤ
read_double s = elim (read_int s) [ ok z ↦ inr z | err e ↦ inl e | stuck ↦ inl invalid_argument ]

-- Integers in the place of doubles.
abbrev pub ints : Doubles
ints = record {
  Double = ℤ;
  of_int = λ z. z;
  to_int = λ z. z;
  is_finite = λ z. true;
  floor = λ z. z;
  fabs = λ z. pos (pos_part z + neg_part z);
  signbit = λ z. ltb_ℤ z (pos 0);
  is_subnormal = λ z. false;
  eq = λ a b. not (ltb_ℤ a b) && not (ltb_ℤ b a);
  lt = ltb_ℤ;
  add = λ a b. a;
  sub = λ a b. a;
  mul = λ a b. a;
  div = λ a b. a;
  stod = read_double;
  print_g17 = print_int;
}

read_double-print_int : (z : ℤ) → read_double (print_int z) ≡ inr z
read_double-print_int z =
    let e : read_int (print_int z) ≡ ok z = rw append-nil at (read_int-print_int z [] tt) in
    rw (e, read_double) refl

fits_small :
    (z : ℤ) → ltb_ℤ (pos (pos_part z + neg_part z)) (pos (10 ^ 15)) ≡ true → fits (10 ^ 15) z ≡ true
unfolding fits
fits_small (pos n) h = ground arith
fits_small (negsuc n) h = ground arith

pub ints-PrintLaws : PrintLaws ints
ints-PrintLaws = record {
  g17_numeral = λ n h. print_int-IsNumeral n;
  stod_g17 = λ n h k. read_double-print_int n;
  stod_int = λ z h. read_double-print_int z;
  to_int_fits = λ n h k. fits_small n k;
  of_int-to_int = λ n h k l m. refl;
}
