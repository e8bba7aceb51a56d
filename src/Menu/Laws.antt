-- ===== src/Menu/Laws.antt =====
-- The menu goes round: what is selected depends on the number of steps up and down only.
use native.Mathlib.Nat.{mod-lt, mod-eq_of_lt, mod-add-mod}
use expo_builder_local.Prelude.{
  ℕ, ◌+◌, ◌-◌, ◌%◌, ◌<◌, Bytes, List, [], ◌∷◌, ◌++◌, false, some, ◌≡◌, refl, sym, ◌∙◌, ap, arith,
  ◌==◌, length, All,
}
use expo_builder_local.Prelude.Int.{ℤ, pos, negsuc}
use expo_builder_local.Menu.{
  TuiKey, up, down, enter, escape, other, menu_loop, clamp_index, select_from_menu,
}

-- Keys that do not end the menu.
abbrev pub IsMove : TuiKey → Type 0
IsMove enter = ⊥
IsMove escape = ⊥
IsMove _ = Unit

abbrev pub Moves : List TuiKey → Type 0
Moves = All IsMove

-- How far the keys go forward, where a step up is `n - 1` steps down.
unfoldable pub forward : ℕ → List TuiKey → ℕ
forward n [] = 0
forward n (up ∷ keys) = (n - 1) + forward n keys
forward n (down ∷ keys) = 1 + forward n keys
forward n (_ ∷ keys) = forward n keys

loop-Moves :
    (n s : ℕ) (keys rest : List TuiKey)
    → 0 < n
    → s < n
    → Moves keys
    → menu_loop n s (keys ++ rest) ≡ menu_loop n ((s + forward n keys) % n) rest
unfolding menu_loop forward
loop-Moves n s [] rest hn hs h =
    ap (λ x. menu_loop n x rest) (sym (ap (λ x. x % n) (omega arith) ∙ mod-eq_of_lt hs))
loop-Moves n s (up ∷ keys) rest hn hs (_, h) =
    loop-Moves n ((s + n - 1) % n) keys rest hn (mod-lt (s + n - 1) hn) h
    ∙ ap (λ x. menu_loop n x rest)
        (mod-add-mod (s + n - 1) n (forward n keys) ∙ ap (λ x. x % n) (omega arith))
loop-Moves n s (down ∷ keys) rest hn hs (_, h) =
    loop-Moves n ((s + 1) % n) keys rest hn (mod-lt (s + 1) hn) h
    ∙ ap (λ x. menu_loop n x rest)
        (mod-add-mod (s + 1) n (forward n keys) ∙ ap (λ x. x % n) (omega arith))
loop-Moves n s (other ∷ keys) rest hn hs (_, h) = loop-Moves n s keys rest hn hs h
loop-Moves n s (enter ∷ keys) rest hn hs (ended, h) = absurd ended
loop-Moves n s (escape ∷ keys) rest hn hs (ended, h) = absurd ended

clamp_index-lt : (z : ℤ) (n : ℕ) → 0 < n → clamp_index z n < n
unfolding clamp_index
clamp_index-lt (pos i) n h = omega arith
clamp_index-lt (negsuc i) n h = h

select_lem :
    (options : List Bytes) (z : ℤ) (keys : List TuiKey)
    → 0 < length options
    → select_from_menu options z keys
      ≡ menu_loop (length options) (clamp_index z (length options)) keys
unfolding select_from_menu
select_lem options z keys h = let e : (length options == 0) ≡ false = ground arith in rw e refl

enter_lem : (n s : ℕ) (rest : List TuiKey) → menu_loop n s (enter ∷ rest) ≡ some (pos s)
unfolding menu_loop
enter_lem n s rest = refl

escape_lem : (n s : ℕ) (rest : List TuiKey) → menu_loop n s (escape ∷ rest) ≡ some (negsuc 0)
unfolding menu_loop
escape_lem n s rest = refl

-- With at least one option, after keys that neither enter nor escape, enter selects the index that
-- the keys reach from the clamped default by going round the options, which is one of them, and
-- escape gives -1; what is pressed behind makes no difference.
pub select_from_menu_lem :
    (options : List Bytes) (z : ℤ) (keys rest : List TuiKey)
    → 0 < length options
    → Moves keys
    → (select_from_menu options z (keys ++ enter ∷ rest)
        ≡ some (
            pos
              ((clamp_index z (length options) + forward (length options) keys) % length options)))
      × ((clamp_index z (length options) + forward (length options) keys) % length options
          < length options)
      × (select_from_menu options z (keys ++ escape ∷ rest) ≡ some (negsuc 0))
select_from_menu_lem options z keys rest h m =
    let n = length options in
    let s = clamp_index z n in
    (
      select_lem options z (keys ++ enter ∷ rest) h
          ∙ loop-Moves n s keys (enter ∷ rest) h (clamp_index-lt z n h) m
          ∙ enter_lem n ((s + forward n keys) % n) rest,
      mod-lt (s + forward n keys) h,
      select_lem options z (keys ++ escape ∷ rest) h
          ∙ loop-Moves n s keys (escape ∷ rest) h (clamp_index-lt z n h) m
          ∙ escape_lem n ((s + forward n keys) % n) rest,
    )
