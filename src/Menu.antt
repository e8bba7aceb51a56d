-- ===== src/Menu.antt =====
-- cli-cpp-legacy/src/tui_menu.cpp and the decoding of keys in tui_input.cpp (the build for Unix). The
-- keys pressed are an argument; what is drawn is not modelled.
pub mod Laws
mod Tests
use expo_builder_local.Prelude.{
  ℕ, ◌+◌, ◌-◌, ◌%◌, Bytes, List, [], ◌∷◌, Bool, true, false, ◌||◌, Option, none, some, ◌==◌, length,
  min, if◌then◌else◌,
}
use expo_builder_local.Prelude.Int.{ℤ, pos, negsuc}

pub data TuiKey : Type 0 where
  up down enter escape other : TuiKey

-- A byte of the terminal, with whether it comes within 50 ms of the read before it.
abbrev pub Input : Type 0
Input = List (Bool × ℕ)

-- behind an escape and a bracket
after_bracket : Input → TuiKey × Input
after_bracket [] = (other, [])
after_bracket ((false, c) ∷ s) = (other, (false, c) ∷ s)
after_bracket ((true, c) ∷ s) =
    if c == b'A' then (up, s) else if c == b'B' then (down, s) else (other, s)

-- behind an escape
after_escape : Input → TuiKey × Input
after_escape [] = (escape, [])
after_escape ((false, c) ∷ s) = (escape, (false, c) ∷ s)
after_escape ((true, c) ∷ s) = let more = after_bracket s in if c == b'[' then more else (escape, s)

-- `readKey`; a read that fails, as at the end of the input, is another key.
unfoldable pub read_key : Input → TuiKey × Input
unfolding after_escape after_bracket
read_key [] = (other, [])
read_key ((now, c) ∷ s) =
    if c == 27
    then after_escape s
    else if (c == 13) || (c == 10)
    then (enter, s)
    else if c == 3
    then (escape, s)
    else (other, s)

-- The loop of `selectFromMenu` over the keys, with `n` options; none while it waits for a key.
unfoldable pub menu_loop : ℕ → ℕ → List TuiKey → Option ℤ
menu_loop n selected [] = none
menu_loop n selected (up ∷ keys) = menu_loop n ((selected + n - 1) % n) keys
menu_loop n selected (down ∷ keys) = menu_loop n ((selected + 1) % n) keys
menu_loop n selected (enter ∷ keys) = some (pos selected)
menu_loop n selected (escape ∷ keys) = some (negsuc 0)
menu_loop n selected (other ∷ keys) = menu_loop n selected keys

-- std::max(0, std::min(defaultIndex, n - 1))
unfoldable pub clamp_index : ℤ → ℕ → ℕ
clamp_index (pos i) n = min i (n - 1)
clamp_index (negsuc i) n = 0

unfoldable pub select_from_menu : List Bytes → ℤ → List TuiKey → Option ℤ
unfolding menu_loop clamp_index
select_from_menu options default_index keys =
    let n = length options in
    if n == 0 then some (negsuc 0) else menu_loop n (clamp_index default_index n) keys
