-- ===== src/PullProgress/Tests.antt =====
-- The renderer on concrete events.
use expo_builder_local.Prelude.{[], ◌∷◌, true, codes, arith}
use expo_builder_local.PullProgress.{Renderer, on_event}
use expo_builder_local.PullProgress.Laws.{IsIndexed, on_event-IsIndexed}

abbrev one_layer : Renderer
one_layer = record {
  is_tty = true;
  order = codes "a1: Waiting" ∷ [];
  index_of = (codes "a1", 0) ∷ [];
}

one_layer-IsIndexed : IsIndexed one_layer
one_layer-IsIndexed = (omega arith, tt)

on_event-IsIndexed_example : IsIndexed ((on_event (codes "b2") (codes "Waiting") [] one_layer).1)
on_event-IsIndexed_example =
    on_event-IsIndexed (codes "b2") (codes "Waiting") [] one_layer one_layer-IsIndexed
