-- ===== src/Docker/Render/Laws.antt =====
-- The shape of the progress bar.
use expo_builder_local.Prelude.{
  ℕ, zero, suc, ◌+◌, Bytes, [], ◌∷◌, replicate, length, length-append, length-replicate, ◌≡◌, refl,
  ap, arith,
}
use expo_builder_local.Prelude.Int.{ℤ, pos, negsuc}
use expo_builder_local.Docker.Http.{Machine}
use expo_builder_local.Docker.Render.{fill, put, put_tip, bar_text, render_bar}

length-fill : (filled : ℤ) (i : ℕ) (bar : Bytes) → length (fill filled i bar) ≡ length bar
unfolding fill
length-fill filled i [] = refl
length-fill filled i (c ∷ bar) = ap suc (length-fill filled (suc i) bar)

length-put : (i c : ℕ) (bar : Bytes) → length (put i c bar) ≡ length bar
unfolding put
length-put i c [] = refl
length-put zero c (d ∷ bar) = refl
length-put (suc i) c (d ∷ bar) = ap suc (length-put i c bar)

length-put_tip :
    (filled : ℤ) (width : ℕ) (bar : Bytes) → length (put_tip filled width bar) ≡ length bar
unfolding put_tip
length-put_tip (pos n) width bar = ground (arith, length-put n b'>' bar)
length-put_tip (negsuc n) width bar = refl

pub length-bar_text : (filled : ℤ) (width : ℕ) → length (bar_text filled width) ≡ width + 2
unfolding bar_text
length-bar_text filled width =
    let bar = fill filled 0 (replicate width b' ') in
    omega (
      arith,
      length-append (put_tip filled width bar) (b']' ∷ []),
      length-put_tip filled width bar,
      length-fill filled 0 (replicate width b' '),
      length-replicate {A = ℕ} width b' ',
    )

-- The bar of a progress is 32 characters wide, whatever the numbers are and whatever the arithmetic
-- on doubles gives.
length-render_bar :
    (machine : Machine) (current total : ℤ) → length (render_bar machine current total) ≡ 32
unfolding render_bar
length-render_bar machine current total = length-bar_text _ 30
