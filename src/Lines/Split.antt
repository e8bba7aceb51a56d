-- ===== src/Lines/Split.antt =====
-- The whole lines of a text, and that the line buffer hands on just these.
use expo_builder_local.Prelude.{
  ℕ, Bytes, List, [], ◌∷◌, ◌++◌, Bool, ◌≡◌, sym, ◌∙◌, ap, if◌then◌else◌, Bool-cases, inl, inr,
}
use expo_builder_local.Exception.{Result, ok, ok_inj, ◌>>=◌, >>=-eq-ok}
use expo_builder_local.Lines.{feed}
use expo_builder_local.Lines.Laws.{read_byte, read_bytes, feed-read_bytes}

module _ (is_end : ℕ → Bool) where
  -- The whole lines of a text, the first of which has begun.
  unfoldable pub lines_from : Bytes → Bytes → List Bytes
  lines_from line [] = []
  lines_from line (c ∷ s) =
      let begun = if is_end c then [] else line ++ c ∷ [] in
      let later = lines_from begun s in if is_end c then line ∷ later else later

  -- The lines of a text that a delimiter ends.
  abbrev pub whole_lines : Bytes → List Bytes
  whole_lines s = lines_from [] s

  module _ {S : Type 0} (handle : Bytes → S → Result S) where
    unfoldable pub run_lines : List Bytes → S → Result S
    run_lines [] state = ok state
    run_lines (line ∷ lines) state = handle line state >>= λ next. run_lines lines next

    read_bytes-lines :
        (s line rest : Bytes) (state end : S)
        → read_bytes is_end handle s (line, state) ≡ ok (rest, end)
        → run_lines (lines_from line s) state ≡ ok end
    unfolding read_bytes read_byte lines_from run_lines
    read_bytes-lines [] line rest state end h = ap (λ b. ok b) (ap (λ b. b.1) (ok_inj h))
    read_bytes-lines (c ∷ s) line rest state end h = elim (Bool-cases (is_end c)) [
      | inl e ↦
          let (b, e1, h1) =
            >>=-eq-ok (handle line state >>= λ next. ok ([], next))
              (λ b. read_bytes is_end handle s b) (rw e at h) in
          let (next, e2, h2) = >>=-eq-ok (handle line state) (λ next. ok ([], next)) e1 in
          let q : b ≡ ([], next) = sym (ok_inj h2) in
          rw (e, e2) (read_bytes-lines s [] rest next end (rw q at h1))
      | inr e ↦ rw e (read_bytes-lines s (line ++ c ∷ []) rest state end (rw e at h))
    ]

    -- A text that is fed to an empty buffer is handled line by line.
    pub feed-lines :
        (s rest : Bytes) (state end : S)
        → feed is_end handle s ([], state) ≡ ok (rest, end)
        → run_lines (whole_lines s) state ≡ ok end
    feed-lines s rest state end h =
        read_bytes-lines s [] rest state end (sym (feed-read_bytes is_end handle s [] state tt) ∙ h)
