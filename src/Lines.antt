-- ===== src/Lines.antt =====
-- The line buffer of the stream handlers: `residual` and the loop over it in `buildImage` and
-- `pullImage` of cli-cpp-legacy/src/docker_client.cpp and in `onChunk` of
-- cli-cpp-legacy/src/commands/build.cpp.
pub mod Laws
pub mod Keeps
pub mod Split
mod Tests
use expo_builder_local.Prelude.{
  ℕ, zero, suc, Bytes, List, [], ◌∷◌, ◌++◌, Bool, Option, none, some, length, if◌then◌else◌,
}
use expo_builder_local.Exception.{Result, ok, stuck, ◌>>=◌}

module _ (is_end : ℕ → Bool) where
  unfoldable pub put_front : ℕ → Option (Bytes × Bytes) → Option (Bytes × Bytes)
  put_front c none = none
  put_front c (some (line, rest)) = some (c ∷ line, rest)

  -- The text in front of the first delimiter, and what is left when it is erased with its line.
  unfoldable pub cut : Bytes → Option (Bytes × Bytes)
  unfolding put_front
  cut [] = none
  cut (c ∷ s) = let later = put_front c (cut s) in if is_end c then some ([], s) else later

  module _ {S : Type 0} (handle : Bytes → S → Result S) where
    -- the body of the while loop, with the rounds that follow
    unfoldable pub drain_cut :
        (Bytes → S → Result (Bytes × S)) → Bytes → S → Option (Bytes × Bytes) → Result (Bytes × S)
    drain_cut again residual state none = ok (residual, state)
    drain_cut again residual state (some (line, rest)) =
        handle line state >>= λ next. again rest next

    -- the while loop, on fuel
    unfoldable pub drain : ℕ → Bytes → S → Result (Bytes × S)
    drain zero residual state = stuck
    drain (suc fuel) residual state =
        drain_cut (λ rest next. drain fuel rest next) residual state (cut residual)

    -- A round erases a byte or more, so that the length is fuel enough.
    unfoldable pub feed : Bytes → Bytes × S → Result (Bytes × S)
    feed chunk (residual, state) = let all = residual ++ chunk in drain (suc (length all)) all state

    -- the chunks of a stream, one call of the handler after the other
    unfoldable pub feed_all : List Bytes → Bytes × S → Result (Bytes × S)
    feed_all [] buffer = ok buffer
    feed_all (chunk ∷ chunks) buffer = feed chunk buffer >>= λ next. feed_all chunks next
