-- ===== src/UpdateCheck/Tests.antt =====
-- A check, and the theorems at work on it.
use expo_builder_local.Prelude.{Bytes, true, false, Option, none, some, codes, ◌≡◌, refl, ap, arith}
use expo_builder_local.Prelude.Int.{pos}
use expo_builder_local.Exception.{ok}
use expo_builder_local.Doubles.{is_negative_zero}
use expo_builder_local.Json.Integers.{ints, ints-PrintLaws}
use expo_builder_local.Json.Access.{get, as_string}
use expo_builder_local.Json.Parser.{parse}
use expo_builder_local.Json.Parser.Numbers.{IsReadable}
use expo_builder_local.Version.{is_version_newer}
use expo_builder_local.UpdateCheck.{
  no_cache, Reply, catch_json, is_stale, newest, fetch_latest_tag, read_cache,
  check_for_newer_version, with_cache, after_fetch, latest,
}
use expo_builder_local.UpdateCheck.Laws.{
  check_for_newer_version_newer, check_for_newer_version_again,
}

abbrev reply : Option Reply
reply = some (record { performed = true; http_code = 200; body = codes "{\"tag_name\":\"v2.0\"}" })

abbrev checked_file : Option Bytes
checked_file = (check_for_newer_version ints true reply true (pos 100000) (codes "1.9") none).1

answered :
    (check_for_newer_version ints true reply true (pos 100000) (codes "1.9") none).0
    ≡ ok (some (codes "v2.0"))
unfolding check_for_newer_version with_cache read_cache is_stale after_fetch fetch_latest_tag
    catch_json parse get as_string latest newest is_version_newer
answered = refl

checked :
    check_for_newer_version ints true reply true (pos 100000) (codes "1.9") none
    ≡ (ok (some (codes "v2.0")), checked_file)
checked = ap (λ r. (r, checked_file)) answered

check_for_newer_version_newer_example : is_version_newer (codes "v2.0") (codes "1.9") ≡ true
check_for_newer_version_newer_example =
    check_for_newer_version_newer ints true reply true (pos 100000) (codes "1.9") none checked_file
      (codes "v2.0") checked

readable : IsReadable ints (pos 100000)
readable = unfold is_negative_zero in (refl, refl, refl)

nothing_cached : read_cache ints none ≡ ok no_cache
nothing_cached = unfold read_cache in refl

stale : is_stale (pos 100000) (pos 0) ≡ true
stale = unfold is_stale in refl

check_for_newer_version_again_example :
    check_for_newer_version ints true none false (pos 186400) (codes "1.9") checked_file
    ≡ (ok (some (codes "v2.0")), checked_file)
check_for_newer_version_again_example =
    check_for_newer_version_again ints ints-PrintLaws reply none false (pos 100000) (pos 186400)
      (codes "1.9") no_cache none checked_file (some (codes "v2.0")) readable refl nothing_cached
      stale (omega arith) checked
