-- ===== src/Decimal/Tests.antt =====
-- Runs of printing and reading, and the theorems at work on concrete numbers.
use expo_builder_local.Prelude.{◌^◌, ◌++◌, codes, ◌≡◌, refl, if◌then◌else◌}
use expo_builder_local.Prelude.Int.{negsuc}
use expo_builder_local.Exception.{ok, err, out_of_range, invalid_argument}
use expo_builder_local.Decimal.{print_int, stoi, read_bounded, fits, is_digit}
use expo_builder_local.Decimal.Laws.{read_bounded-print_int}

smallest : stoi (codes " -2147483648x") ≡ ok (negsuc 2147483647)
unfolding stoi
smallest = refl

too_large : stoi (codes "2147483648") ≡ err out_of_range
unfolding stoi
too_large = refl

no_digits : stoi (codes "+-1") ≡ err invalid_argument
unfolding stoi
no_digits = refl

read_bounded-print_int_example :
    read_bounded (2 ^ 31) (print_int (negsuc 41) ++ codes "%")
    ≡ (if fits (2 ^ 31) (negsuc 41) then ok (negsuc 41) else err out_of_range)
read_bounded-print_int_example =
    read_bounded-print_int (2 ^ 31) (negsuc 41) (codes "%") (unfold is_digit in refl)
