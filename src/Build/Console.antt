-- ===== src/Build/Console.antt =====
-- The terminal that `ebl build` asks: cli-cpp-legacy/src/prompt.cpp over std::getline, and
-- `selectFromMenu`, of which the module Menu has the loop. A step that the user cancels has no value.
use expo_builder_local.Prelude.{ℕ, Bytes, [], ◌∷◌, Option, none, some}

pub record Console : Type 1 where
  pub World : Type 0
  -- std::getline of std::cin, with or without an echo: an empty line where there is no more
  pub read_line : World → Bytes × World
  -- a menu of so many items, with the one that is selected first; none where it is cancelled
  pub choose : ℕ → ℕ → World → Option ℕ × World

module _ {W : Type 0} where
  abbrev pub and_then : {A B : Type 0} → Option A × W → (A → W → Option B × W) → Option B × W
  and_then (some a, w) f = f a w
  and_then (none, w) f = (none, w)

  infixl 5 ◌>>=◌
  abbrev pub ◌>>=◌ : {A B : Type 0} → (W → Option A × W) → (A → W → Option B × W) → W → Option B × W
  (m >>= f) w = and_then (m w) f

  abbrev pub ret : {A : Type 0} → A → W → Option A × W
  ret a w = (some a, w)

  abbrev pub cancel : {A : Type 0} → W → Option A × W
  cancel w = (none, w)

unfoldable pub or_default : Bytes → Bytes → Bytes
or_default default [] = default
or_default default (c ∷ s) = c ∷ s

module _ (console : Console) where
  open console use {World, read_line}

  -- `promptString`
  unfoldable pub prompt_string : Bytes → World → Option Bytes × World
  prompt_string default w =
      let (line, after) = read_line w in (some (or_default default line), after)

  -- `promptHidden`
  unfoldable pub prompt_hidden : World → Option Bytes × World
  prompt_hidden w = let (line, after) = read_line w in (some line, after)
