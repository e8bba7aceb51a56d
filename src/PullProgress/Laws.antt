-- ===== src/PullProgress/Laws.antt =====
-- The lines that the renderer tracks.
use expo_builder_local.Prelude.{
  ℕ, zero, suc, ◌<◌, ◌≤◌, Bytes, List, [], ◌∷◌, ◌++◌, not, ◌||◌, Bool-cases, inl, inr, Option, none,
  some, length, length-append, ◌≡◌, refl, ap, All, arith,
}
use expo_builder_local.Config.{is_empty}
use expo_builder_local.PullProgress.{Renderer, find, set_at, event_text, show_layer, on_event}

abbrev IsBelow : ℕ → List (Bytes × ℕ) → Type 0
IsBelow n entries = All (λ entry. entry.1 < n) entries

length-set_at :
    (n : ℕ) (text : Bytes) (lines : List Bytes) → length (set_at n text lines) ≡ length lines
unfolding set_at
length-set_at n text [] = refl
length-set_at zero text (line ∷ lines) = refl
length-set_at (suc n) text (line ∷ lines) = ap suc (length-set_at n text lines)

IsBelow-weaken :
    (m n : ℕ) (entries : List (Bytes × ℕ)) → m ≤ n → IsBelow m entries → IsBelow n entries
IsBelow-weaken m n [] le h = tt
IsBelow-weaken m n (entry ∷ entries) le (h, hs) = (omega arith, IsBelow-weaken m n entries le hs)

-- Every tracked layer has a line among those drawn.
abbrev pub IsIndexed : Renderer → Type 0
IsIndexed r = IsBelow (length r.order) r.index_of

show_layer-IsIndexed :
    (id text : Bytes) (found : Option ℕ) (r : Renderer)
    → IsIndexed r
    → IsIndexed ((show_layer id text found r).1)
unfolding show_layer
show_layer-IsIndexed id text none r h =
    let longer : length r.order < length (r.order ++ text ∷ []) =
      omega (arith, length-append r.order (text ∷ [])) in
    (
      longer,
      IsBelow-weaken (length r.order) (length (r.order ++ text ∷ [])) r.index_of (omega arith) h,
    )
show_layer-IsIndexed id text (some index) r h = rw (length-set_at index text r.order) h

-- If every tracked layer has the index of a line among those in `order_`, then after an event every
-- tracked layer, with one that the event adds, again has the index of such a line.
pub on_event-IsIndexed :
    (id status progress : Bytes) (r : Renderer)
    → IsIndexed r
    → IsIndexed ((on_event id status progress r).1)
unfolding on_event
on_event-IsIndexed id status progress r h = elim (Bool-cases (not r.is_tty || is_empty id)) [
  | inl e ↦ rw e h
  | inr e ↦ rw e (show_layer-IsIndexed id (event_text id status progress) (find id r.index_of) r h)
]
