-- ===== src/Menu/Tests.antt =====
-- Runs of the menu, and the theorem at work on concrete keys.
use expo_builder_local.Prelude.{
  ◌+◌, ◌%◌, ◌<◌, Bytes, List, [], ◌∷◌, ◌++◌, true, false, some, codes, length, ◌≡◌, refl, arith,
}
use expo_builder_local.Prelude.Int.{pos, negsuc}
use expo_builder_local.Menu.{
  TuiKey, up, down, enter, escape, other, read_key, clamp_index, select_from_menu,
}
use expo_builder_local.Menu.Laws.{forward, select_from_menu_lem}

arrow :
    read_key ((false, 27) ∷ (true, b'[') ∷ (true, b'B') ∷ (false, 13) ∷ [])
    ≡ (down, (false, 13) ∷ [])
unfolding read_key
arrow = refl

bare_escape : read_key ((false, 27) ∷ (false, b'[') ∷ []) ≡ (escape, (false, b'[') ∷ [])
unfolding read_key
bare_escape = refl

abbrev options : List Bytes
options = codes "a" ∷ codes "b" ∷ codes "c" ∷ []

abbrev keys : List TuiKey
keys = up ∷ up ∷ other ∷ down ∷ []

select_from_menu_lem_example :
    (select_from_menu options (pos 0) (keys ++ enter ∷ [])
      ≡ some (
          pos (
            (clamp_index (pos 0) (length options) + forward (length options) keys)
            % length options)))
    × ((clamp_index (pos 0) (length options) + forward (length options) keys) % length options
        < length options)
    × (select_from_menu options (pos 0) (keys ++ escape ∷ []) ≡ some (negsuc 0))
select_from_menu_lem_example =
    select_from_menu_lem options (pos 0) keys [] (omega arith) (tt, (tt, (tt, (tt, tt))))
