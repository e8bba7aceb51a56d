-- ===== src/PullProgress.antt =====
-- cli-cpp-legacy/src/pull_progress.cpp: the class PullProgressRenderer, which draws a line for each layer
-- of an image that is pulled. What it writes is the list of its bytes.
pub mod Laws
mod Tests
use expo_builder_local.Prelude.{
  ℕ, zero, suc, ◌-◌, Bytes, List, [], ◌∷◌, ◌++◌, Bool, not, ◌||◌, bytes_eq, Option, none, some,
  codes, length, if◌then◌else◌,
}
use expo_builder_local.Config.{is_empty}
use expo_builder_local.Decimal.{print_nat}

pub record Renderer : Type 0 where
  pub is_tty : Bool
  pub order : List Bytes
  pub index_of : List (Bytes × ℕ)

abbrev pub new : Bool → Renderer
new is_tty = record { is_tty = is_tty; order = []; index_of = [] }

-- indexOf_.find
unfoldable pub find : Bytes → List (Bytes × ℕ) → Option ℕ
find id [] = none
find id ((key, index) ∷ entries) =
    let later = find id entries in if bytes_eq key id then some index else later

-- order_[idx] = text
unfoldable pub set_at : ℕ → Bytes → List Bytes → List Bytes
set_at n text [] = []
set_at zero text (line ∷ lines) = text ∷ lines
set_at (suc n) text (line ∷ lines) = line ∷ set_at n text lines

unfoldable pub event_text : Bytes → Bytes → Bytes → Bytes
event_text id status progress =
    (if is_empty id then status else id ++ codes ": " ++ status)
    ++ (if is_empty progress then [] else codes " " ++ progress)

-- The lines up to the tracked one, the line anew, and back down.
unfoldable pub redraw : ℕ → Bytes → Bytes
redraw lines_up text =
    27
    ∷ (codes "["
        ++ (print_nat lines_up
            ++ (codes "A\r"
                ++ (27
                    ∷ (codes "[2K"
                        ++ (text ++ (27 ∷ (codes "[" ++ (print_nat lines_up ++ codes "B\r")))))))))

unfoldable pub show_layer : Bytes → Bytes → Option ℕ → Renderer → Bytes × Renderer
show_layer id text none r = (
  text ++ codes "\n",
  record r { order = r.order ++ text ∷ []; index_of = (id, length r.order) ∷ r.index_of },
)
show_layer id text (some index) r =
    let order = set_at index text r.order in
    (redraw (length order - index) text, record r { order = order })

-- `onEvent`: what is written, and the renderer
unfoldable pub on_event : Bytes → Bytes → Bytes → Renderer → Bytes × Renderer
on_event id status progress r =
    let text = event_text id status progress in
    if not r.is_tty || is_empty id
    then (text ++ codes "\n", r)
    else show_layer id text (find id r.index_of) r
