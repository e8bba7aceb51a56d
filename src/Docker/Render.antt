-- ===== src/Docker/Render.antt =====
-- `humanSize` and `renderBar` of cli-cpp-legacy/src/docker_client.cpp.
pub mod Laws
use expo_builder_local.Prelude.{
  ℕ, zero, suc, ◌+◌, Bytes, List, [], ◌∷◌, ◌++◌, Bool, ◌&&◌, codes, replicate, ltb, if◌then◌else◌,
}
use expo_builder_local.Prelude.Int.{ℤ, pos, ltb_ℤ}
use expo_builder_local.Doubles.{Doubles}
use expo_builder_local.Docker.Http.{Machine}

-- bar[i] = '=' where i < filled, for the bytes from `i` on
unfoldable pub fill : ℤ → ℕ → Bytes → Bytes
fill filled i [] = []
fill filled i (c ∷ bar) = (if ltb_ℤ (pos i) filled then b'=' else c) ∷ fill filled (suc i) bar

-- bar[i] = c
unfoldable pub put : ℕ → ℕ → Bytes → Bytes
put i c [] = []
put zero c (d ∷ bar) = c ∷ bar
put (suc i) c (d ∷ bar) = d ∷ put i c bar

-- The '>' behind the filled part, where it lies inside the bar.
unfoldable pub put_tip : ℤ → ℕ → Bytes → Bytes
put_tip (pos filled) width bar =
    if ltb 0 filled && ltb filled width then put filled b'>' bar else bar
put_tip _ width bar = bar

unfoldable pub bar_text : ℤ → ℕ → Bytes
bar_text filled width =
    b'[' ∷ (put_tip filled width (fill filled 0 (replicate width b' ')) ++ b']' ∷ [])

module _ (machine : Machine) where
  open machine use {doubles}

  abbrev Double : Type 0
  Double = doubles.Double

  -- the while loop over kUnits, from the unit of a value on
  unfoldable pub scale : Double → Bytes → List Bytes → Double × Bytes
  scale value unit [] = (value, unit)
  scale value unit (next ∷ units) =
      let scaled = scale (doubles.div value (doubles.of_int (pos 1000))) next units in
      if doubles.lt value (doubles.of_int (pos 1000)) then (value, unit) else scaled

  unfoldable pub human_size : Double → Bytes
  human_size bytes =
      let (value, unit) =
        scale bytes (codes "B")
          (codes "kB" ∷ codes "MB" ∷ codes "GB" ∷ codes "TB" ∷ codes "PB" ∷ []) in
      machine.print_g4 value ++ unit

  unfoldable pub clamp_unit : Double → Double
  clamp_unit frac =
      let positive =
        if doubles.lt frac (doubles.of_int (pos 0)) then doubles.of_int (pos 0) else frac in
      if doubles.lt (doubles.of_int (pos 1)) positive then doubles.of_int (pos 1) else positive

  -- `renderBar` with its default width
  unfoldable pub render_bar : ℤ → ℤ → Bytes
  render_bar current total =
      let frac =
        (if ltb_ℤ (pos 0) total
          then doubles.div (doubles.of_int current) (doubles.of_int total)
          else doubles.of_int (pos 0)) in
      bar_text (doubles.to_int (doubles.mul (clamp_unit frac) (doubles.of_int (pos 30)))) 30
