-- ===== src/Lines/Keeps.antt =====
-- Handlers that never throw: the loop returns, and what they keep holds behind it.
use expo_builder_local.Prelude.{
  ℕ, Bytes, List, [], ◌∷◌, ◌++◌, Bool, ◌≡◌, refl, ◌∙◌, Bool-cases, inl, inr,
}
use expo_builder_local.Exception.{ok}
use expo_builder_local.Lines.{feed_all}
use expo_builder_local.Lines.Laws.{read_byte, read_bytes, concat, feed_all-read_bytes}

module _ (is_end : ℕ → Bool) {S : Type 0} (change : Bytes → S → S) (P : S → Type 0) where
  -- The outcome of a stream: it returns, and `P` holds of the state.
  abbrev Returns : Bytes → Bytes × S → Type 0
  Returns s buffer =
      (rest : Bytes) × (final : S) × (read_bytes is_end (λ l t. ok (change l t)) s buffer
        ≡ ok (rest, final))
      × P final

  read_bytes-Returns :
      ((line : Bytes) (state : S) → P state → P (change line state))
      → (s line : Bytes) (state : S) → P state
      → Returns s (line, state)
  unfolding read_bytes read_byte
  read_bytes-Returns keeps [] line state h = (line, state, refl, h)
  read_bytes-Returns keeps (c ∷ s) line state h = elim (Bool-cases (is_end c)) [
    | inl e ↦ rw e (read_bytes-Returns keeps s [] (change line state) (keeps line state h))
    | inr e ↦ rw e (read_bytes-Returns keeps s (line ++ c ∷ []) state h)
  ]

  pub feed_all-Returns :
      ((line : Bytes) (state : S) → P state → P (change line state))
      → (chunks : List Bytes) (state : S) → P state
      → (rest : Bytes) × (final : S) × (feed_all is_end (λ l t. ok (change l t)) chunks ([], state)
          ≡ ok (rest, final))
        × P final
  feed_all-Returns keeps chunks state h =
      let (rest, final, e, k) = read_bytes-Returns keeps (concat chunks) [] state h in
      (rest, final, feed_all-read_bytes is_end (λ l t. ok (change l t)) chunks [] state tt ∙ e, k)
