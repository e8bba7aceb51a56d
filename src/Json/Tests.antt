-- ===== src/Json/Tests.antt =====
-- Runs of the printer and the parser, and the theorems at work on concrete values.
use expo_builder_local.Prelude.{[], ◌∷◌, codes, ◌≡◌, ◌≢◌, refl, bytes_eq, if◌then◌else◌}
use expo_builder_local.Prelude.Int.{ℤ, pos, negsuc}
use expo_builder_local.Exception.{ok, stuck}
use expo_builder_local.Doubles.{is_negative_zero}
use expo_builder_local.Decimal.{print_int, read_int}
use expo_builder_local.Json.Value.{Json, null, number, string, array, object, nil, cons, end, field}
use expo_builder_local.Json.Access.{lookup, set, get, push_back}
use expo_builder_local.Json.Access.Laws.{get-set}
use expo_builder_local.Json.Keys.{HasUniqueKeys}
use expo_builder_local.Json.Dump.{dump}
use expo_builder_local.Json.Parser.{parse}
use expo_builder_local.Json.Parser.Total.{parse-ne-stuck, parse-HasUniqueKeys}
use expo_builder_local.Json.Parser.Steps.{IsPrintable}
use expo_builder_local.Json.Integers.{ints, ints-PrintLaws}
use expo_builder_local.Json.Parser.RoundTrip.{parse-dump}

abbrev sample : Json ℤ
sample = object (
    field (codes "a") (array (cons (number (pos 12)) (cons null (cons (number (negsuc 4)) nil))))
      (field (codes "b\n\"") (string (1 ∷ 200 ∷ codes "\\x")) (field [] (object end) end)))

printed : dump ints sample ≡ codes "{\"a\":[12,null,-5],\"b\\n\\\"\":\"\\u0001È\\\\x\",\"\":{}}"
unfolding dump print_int
printed = refl

reparsed : parse ints (dump ints sample) ≡ ok sample
unfolding dump parse print_int read_int
reparsed = refl

sample-IsPrintable : IsPrintable ints sample
unfolding lookup is_negative_zero
sample-IsPrintable =
    (refl, ((refl, refl, refl), (tt, ((refl, refl, refl), tt))), (refl, tt, (refl, tt, tt)))

parse-dump_example : parse ints (dump ints sample) ≡ ok sample
parse-dump_example = parse-dump ints ints-PrintLaws sample sample-IsPrintable

parse-ne-stuck_example : parse ints (codes "[1,{\"k\":") ≢ stuck
parse-ne-stuck_example = parse-ne-stuck ints (codes "[1,{\"k\":")

repeated_key :
    parse ints (codes "{\"k\":1,\"k\":2}") ≡ ok (object (field (codes "k") (number (pos 2)) end))
unfolding parse read_int
repeated_key = refl

parse-HasUniqueKeys_example : HasUniqueKeys (object (field (codes "k") (number (pos 2)) end))
parse-HasUniqueKeys_example =
    parse-HasUniqueKeys ints (codes "{\"k\":1,\"k\":2}")
      (object (field (codes "k") (number (pos 2)) end)) repeated_key

abbrev one_field : Json ℤ
one_field = object (field (codes "k") (number (pos 1)) end)

abbrev two_fields : Json ℤ
two_fields = object (field (codes "k") (number (pos 1)) (field (codes "l") null end))

set_l : set (codes "l") null one_field ≡ ok two_fields
unfolding set
set_l = refl

get-set_example :
    get (codes "k") two_fields
    ≡ (if bytes_eq (codes "l") (codes "k") then null else get (codes "k") one_field)
get-set_example = get-set (codes "l") (codes "k") null one_field set_l

abbrev one_item : Json ℤ
one_item = array (cons null nil)

abbrev two_items : Json ℤ
two_items = array (cons null (cons one_field nil))

push_one_field : push_back one_field one_item ≡ ok two_items
unfolding push_back
push_one_field = refl
