-- ===== src/Version/Tests.antt =====
-- Runs of the comparison, from cli-cpp-legacy/tests/test_version_compare.cpp and beyond, and the
-- theorems at work on concrete versions.
use expo_builder_local.Prelude.{All, List, [], ◌∷◌, codes, ◌≡◌, refl, true, false, ◌↔◌}
use expo_builder_local.Prelude.Int.{ℤ, pos}
use expo_builder_local.Version.{is_version_newer}
use expo_builder_local.Version.Order.{is_version_newer_order}
use expo_builder_local.Version.Dotted.{join_dots, IsInt, IsGreater}
use expo_builder_local.Version.Numbers.{is_version_newer-IsGreater}
use expo_builder_local.Decimal.{fits}

newer : is_version_newer (codes "v1.10.0") (codes "1.9.9") ≡ true
unfolding is_version_newer
newer = refl

same : is_version_newer (codes "1.2") (codes "v1.2.0") ≡ false
unfolding is_version_newer
same = refl

is_version_newer_order_example :
    (is_version_newer (codes "2.0") (codes "2.0") ≡ false)
    × (is_version_newer (codes "2.0") (codes "1.x") ≡ true
        → is_version_newer (codes "1.x") (codes "2.0") ≡ false)
    × (is_version_newer (codes "2.0") (codes "1.x") ≡ true
        → is_version_newer (codes "1.x") (codes "v0.1") ≡ true
        → is_version_newer (codes "2.0") (codes "v0.1") ≡ true)
    × (is_version_newer (codes "2.0") (codes "v0.1") ≡ true
        → is_version_newer (codes "1.x") (codes "v0.1") ≡ false
        → is_version_newer (codes "2.0") (codes "1.x") ≡ true)
is_version_newer_order_example = is_version_newer_order (codes "2.0") (codes "1.x") (codes "v0.1")

abbrev later : List ℤ
later = pos 1 ∷ pos 10 ∷ []

abbrev earlier : List ℤ
earlier = pos 1 ∷ pos 9 ∷ pos 7 ∷ []

is_version_newer-IsGreater_example :
    is_version_newer (b'v' ∷ join_dots later) (b'v' ∷ join_dots earlier) ≡ true
    ↔ IsGreater later earlier
is_version_newer-IsGreater_example =
    is_version_newer-IsGreater later earlier later-IsInt earlier-IsInt
  where
    later-IsInt : All IsInt later
    later-IsInt = unfold fits in (refl, (refl, tt))

    earlier-IsInt : All IsInt earlier
    earlier-IsInt = unfold fits in (refl, (refl, (refl, tt)))
