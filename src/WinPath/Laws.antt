-- ===== src/WinPath/Laws.antt =====
-- Drive paths become paths with forward slashes only, other paths stay.
use expo_builder_local.Prelude.{
  ℕ, Bytes, [], ◌∷◌, Bool, true, false, ◌≡◌, refl, ◌≢◌, ap, All, arith, Bool-cases, inl, inr,
}
use expo_builder_local.WinPath.{
  lower_drive, forward_slash, forward_slashes, is_drive, translate, to_docker_bind_path,
}

translate_drive :
    (d c s : ℕ) (rest : Bytes)
    → is_drive c s ≡ true
    → translate (d ∷ c ∷ s ∷ rest) ≡ b'/' ∷ b'/' ∷ lower_drive d ∷ b'/' ∷ forward_slashes rest
unfolding translate
translate_drive d c s rest h = rw h refl

translate_other :
    (d c s : ℕ) (rest : Bytes)
    → is_drive c s ≡ false
    → translate (d ∷ c ∷ s ∷ rest) ≡ d ∷ c ∷ s ∷ rest
unfolding translate
translate_other d c s rest h = rw h refl

translate_slashes :
    (x y : ℕ) (s : Bytes) → translate (b'/' ∷ b'/' ∷ x ∷ y ∷ s) ≡ b'/' ∷ b'/' ∷ x ∷ y ∷ s
translate_slashes x y s = translate_other b'/' b'/' x (y ∷ s) (unfold is_drive in refl)

translate_twice : (path : Bytes) → translate (translate path) ≡ translate path
translate_twice [] = unfold translate in refl
translate_twice (d ∷ []) = unfold translate in refl
translate_twice (d ∷ c ∷ []) = unfold translate in refl
translate_twice (d ∷ c ∷ s ∷ rest) = elim (Bool-cases (is_drive c s)) [
  | inl e ↦
      rw (translate_drive d c s rest e)
        (translate_slashes (lower_drive d) b'/' (forward_slashes rest))
  | inr e ↦ ap translate (translate_other d c s rest e)
]

-- Translating a path twice is translating it once, in every build and for every path.
to_docker_bind_path_twice :
    (windows : Bool) (path : Bytes)
    → to_docker_bind_path windows (to_docker_bind_path windows path)
      ≡ to_docker_bind_path windows path
unfolding to_docker_bind_path
to_docker_bind_path_twice true path = translate_twice path
to_docker_bind_path_twice false path = refl

forward_slashes_same :
    (rest : Bytes) → forward_slashes (forward_slashes rest) ≡ forward_slashes rest
unfolding forward_slashes forward_slash
forward_slashes_same [] = refl
forward_slashes_same (c ∷ rest) = ground (arith, forward_slashes_same rest)

lacks_backslash : (rest : Bytes) → All (λ c. c ≢ b'\\') (forward_slashes rest)
unfolding forward_slashes forward_slash
lacks_backslash [] = tt
lacks_backslash (c ∷ rest) = (ground arith, lacks_backslash rest)

lower_drive-ne : (d : ℕ) → d ≢ b'\\' → lower_drive d ≢ b'\\'
unfolding lower_drive
lower_drive-ne d h = ground arith

drive_forward :
    (c s : ℕ) → is_drive c s ≡ true → is_drive (forward_slash c) (forward_slash s) ≡ true
unfolding is_drive forward_slash
drive_forward c s h = ground arith

-- On Windows, the bind path of a path that starts with a drive letter, a colon and a slash of either
-- kind has no backslash, where the letter is none, and it is the bind path of the path with all its
-- slashes behind the letter turned forward.
pub to_docker_bind_path_forward :
    (d c s : ℕ) (rest : Bytes)
    → is_drive c s ≡ true
    → d ≢ b'\\'
    → All (λ x. x ≢ b'\\') (to_docker_bind_path true (d ∷ c ∷ s ∷ rest))
      × (to_docker_bind_path true (d ∷ forward_slashes (c ∷ s ∷ rest))
          ≡ to_docker_bind_path true (d ∷ c ∷ s ∷ rest))
unfolding to_docker_bind_path
to_docker_bind_path_forward d c s rest h hd = rw (translate_drive d c s rest h) (
  (omega arith, (omega arith, (lower_drive-ne d hd, (omega arith, lacks_backslash rest)))),
  unfold forward_slashes in
      rw
        (
          translate_drive d (forward_slash c) (forward_slash s) (forward_slashes rest)
              (drive_forward c s h),
          forward_slashes_same rest,
        )
        refl,
)
