-- ===== src/Lines/Tests.antt =====
-- Runs of the line buffer, and its theorems at work.
use expo_builder_local.Prelude.{ℕ, Bytes, List, [], ◌∷◌, ◌++◌, ◌==◌, Bool, codes, ◌≡◌, refl}
use expo_builder_local.Exception.{Result, ok}
use expo_builder_local.Lines.{cut, drain, drain_cut, feed, feed_all}
use expo_builder_local.Lines.Laws.{feed_all-feed, concat}

abbrev newline : ℕ → Bool
newline c = c == b'\n'

abbrev keep : Bytes → List Bytes → Result (List Bytes)
keep line lines = ok (lines ++ line ∷ [])

abbrev chunks : List Bytes
chunks = codes "a\nb" ∷ codes "c" ∷ codes "\n\nd" ∷ []

kept : feed_all newline keep chunks ([], []) ≡ ok (codes "d", codes "a" ∷ codes "bc" ∷ [] ∷ [])
unfolding feed_all feed drain drain_cut cut
kept = refl

feed_all-feed_example :
    feed_all newline keep chunks ([], []) ≡ feed newline keep (concat chunks) ([], [])
feed_all-feed_example = feed_all-feed newline keep chunks [] [] tt
