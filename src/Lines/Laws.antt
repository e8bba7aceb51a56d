-- ===== src/Lines/Laws.antt =====
-- The lines of a stream do not depend on how its bytes are cut into chunks.
use expo_builder_local.Prelude.{
  ℕ, zero, suc, ◌<◌, Bytes, List, [], ◌∷◌, ◌++◌, append_assoc, append-nil, Bool, true, false, none,
  some, length, length-append, ◌≡◌, ◌≢◌, refl, sym, ◌∙◌, ap, All, All-append, if◌then◌else◌, arith,
  Bool-cases, inl, inr,
}
use expo_builder_local.Exception.{Result, ok, err, stuck, ◌>>=◌}
use expo_builder_local.Lines.{put_front, cut, drain, drain_cut, feed, feed_all}

>>=_ext :
    {A B : Type 0} (m : Result A) (f g : A → Result B)
    → ((a : A) → f a ≡ g a)
    → (m >>= f) ≡ (m >>= g)
>>=_ext (ok a) f g h = h a
>>=_ext (err e) f g h = refl
>>=_ext stuck f g h = refl

>>=_assoc :
    {A B C : Type 0} (m : Result A) (f : A → Result B) (g : B → Result C)
    → (m >>= f >>= g) ≡ (m >>= λ a. f a >>= g)
>>=_assoc (ok a) f g = refl
>>=_assoc (err e) f g = refl
>>=_assoc stuck f g = refl

pub concat : List Bytes → Bytes
concat [] = []
concat (s ∷ ss) = s ++ concat ss

module _ (is_end : ℕ → Bool) where
  -- A text without a delimiter.
  abbrev pub IsOpen : Bytes → Type 0
  IsOpen s = All (λ c. is_end c ≡ false) s

  cut_open : (pre : Bytes) → IsOpen pre → cut is_end pre ≡ none
  unfolding cut
  cut_open [] h = refl
  cut_open (c ∷ pre) (hc, h) = rw (hc, cut_open pre h, put_front) refl

  cut_end :
      (pre : Bytes) (c : ℕ) (s : Bytes)
      → IsOpen pre
      → is_end c ≡ true
      → cut is_end (pre ++ c ∷ s) ≡ some (pre, s)
  unfolding cut
  cut_end [] c s h e = rw e refl
  cut_end (d ∷ pre) c s (hd, h) e = rw (hd, cut_end pre c s h e, put_front) refl

  module _ {S : Type 0} (handle : Bytes → S → Result S) where
    -- The reading byte by byte: a delimiter ends the line, every other byte makes it longer.
    unfoldable pub read_byte : ℕ → Bytes × S → Result (Bytes × S)
    read_byte c (line, state) =
        let ended = handle line state >>= λ next. ok ([], next) in
        if is_end c then ended else ok (line ++ c ∷ [], state)

    unfoldable pub read_bytes : Bytes → Bytes × S → Result (Bytes × S)
    read_bytes [] buffer = ok buffer
    read_bytes (c ∷ s) buffer = read_byte c buffer >>= λ next. read_bytes s next

    drain-read_bytes :
        (s pre : Bytes) (state : S) (fuel : ℕ)
        → IsOpen pre
        → length s < fuel
        → drain is_end handle fuel (pre ++ s) state ≡ read_bytes s (pre, state)
    unfolding drain drain_cut read_bytes read_byte
    drain-read_bytes s pre state zero h l = absurd (omega (arith, l))
    drain-read_bytes [] pre state (suc fuel) h l = rw (append-nil pre, cut_open pre h) refl
    drain-read_bytes (c ∷ s) pre state (suc fuel) h l = elim (Bool-cases (is_end c)) [
      | inl e ↦
          rw (cut_end pre c s h e, e)
            (>>=_ext (handle pre state) (λ next. drain is_end handle fuel s next)
                (λ next. read_bytes s ([], next))
                (λ next. drain-read_bytes s [] next fuel tt (omega (arith, l)))
              ∙ sym (>>=_assoc (handle pre state) (λ next. ok ([], next)) (λ b. read_bytes s b)))
      | inr e ↦ rw e (
          ap (λ t. drain is_end handle (suc fuel) t state) (sym (append_assoc pre (c ∷ []) s))
          ∙ drain-read_bytes s (pre ++ c ∷ []) state (suc fuel)
              (All-append (λ d. is_end d ≡ false) pre (c ∷ []) h (e, tt)) (omega (arith, l)))
    ]

    -- One chunk is read byte by byte.
    pub feed-read_bytes :
        (chunk line : Bytes) (state : S)
        → IsOpen line
        → feed is_end handle chunk (line, state) ≡ read_bytes chunk (line, state)
    unfolding feed
    feed-read_bytes chunk line state h =
        drain-read_bytes chunk line state (suc (length (line ++ chunk))) h
          (omega (arith, length-append line chunk))

    read_bytes-append :
        (s t : Bytes) (buffer : Bytes × S)
        → read_bytes (s ++ t) buffer ≡ (read_bytes s buffer >>= λ next. read_bytes t next)
    unfolding read_bytes
    read_bytes-append [] t buffer = refl
    read_bytes-append (c ∷ s) t buffer =
        >>=_ext (read_byte c buffer) (λ next. read_bytes (s ++ t) next)
          (λ next. read_bytes s next >>= λ b. read_bytes t b) (λ next. read_bytes-append s t next)
        ∙ sym (>>=_assoc (read_byte c buffer) (λ next. read_bytes s next) (λ b. read_bytes t b))

    -- What a call that returns leaves in the buffer has no delimiter.
    abbrev pub Leaves : Result (Bytes × S) → Type 0
    Leaves (ok (line, state)) = IsOpen line
    Leaves (err e) = Unit
    Leaves stuck = Unit

    handled-Leaves : (m : Result S) → Leaves (m >>= λ next. ok ([], next))
    handled-Leaves (ok a) = tt
    handled-Leaves (err e) = tt
    handled-Leaves stuck = tt

    read_byte-Leaves :
        (c : ℕ) (line : Bytes) (state : S) → IsOpen line → Leaves (read_byte c (line, state))
    unfolding read_byte
    read_byte-Leaves c line state h = elim (Bool-cases (is_end c)) [
      | inl e ↦ rw e (handled-Leaves (handle line state))
      | inr e ↦ rw e (All-append (λ d. is_end d ≡ false) line (c ∷ []) h (e, tt))
    ]

    bind-Leaves :
        (m : Result (Bytes × S)) (f : Bytes × S → Result (Bytes × S))
        → Leaves m
        → ((line : Bytes) (state : S) → IsOpen line → Leaves (f (line, state)))
        → Leaves (m >>= f)
    bind-Leaves (ok (line, state)) f h k = k line state h
    bind-Leaves (err e) f h k = tt
    bind-Leaves stuck f h k = tt

    read_bytes-Leaves :
        (s line : Bytes) (state : S) → IsOpen line → Leaves (read_bytes s (line, state))
    unfolding read_bytes
    read_bytes-Leaves [] line state h = h
    read_bytes-Leaves (c ∷ s) line state h =
        bind-Leaves (read_byte c (line, state)) (λ next. read_bytes s next)
          (read_byte-Leaves c line state h) (λ l t k. read_bytes-Leaves s l t k)

    bind_open_ext :
        (m : Result (Bytes × S)) (f g : Bytes × S → Result (Bytes × S))
        → Leaves m
        → ((line : Bytes) (state : S) → IsOpen line → f (line, state) ≡ g (line, state))
        → (m >>= f) ≡ (m >>= g)
    bind_open_ext (ok (line, state)) f g h k = k line state h
    bind_open_ext (err e) f g h k = refl
    bind_open_ext stuck f g h k = refl

    pub feed_all-read_bytes :
        (chunks : List Bytes) (line : Bytes) (state : S)
        → IsOpen line
        → feed_all is_end handle chunks (line, state) ≡ read_bytes (concat chunks) (line, state)
    unfolding feed_all concat
    feed_all-read_bytes [] line state h = unfold read_bytes in refl
    feed_all-read_bytes (chunk ∷ chunks) line state h =
        rw
          (
            feed-read_bytes chunk line state h,
            read_bytes-append chunk (concat chunks) (line, state),
          )
          (bind_open_ext (read_bytes chunk (line, state))
            (λ next. feed_all is_end handle chunks next) (λ next. read_bytes (concat chunks) next)
            (read_bytes-Leaves chunk line state h) (λ l t k. feed_all-read_bytes chunks l t k))

    -- However a stream is cut into chunks, the handler is called with the same lines and the buffer
    -- is left with the same rest, exceptions included: the outcome is the one for the whole stream in
    -- one chunk, if no delimiter is in the buffer at the start.
    pub feed_all-feed :
        (chunks : List Bytes) (line : Bytes) (state : S)
        → IsOpen line
        → feed_all is_end handle chunks (line, state)
          ≡ feed is_end handle (concat chunks) (line, state)
    feed_all-feed chunks line state h =
        feed_all-read_bytes chunks line state h ∙ sym (feed-read_bytes (concat chunks) line state h)

    bind_ne_stuck :
        {B : Type 0} (m : Result B) (f : B → Result (Bytes × S))
        → m ≢ stuck
        → ((b : B) → f b ≢ stuck)
        → (m >>= f) ≢ stuck
    bind_ne_stuck (ok b) f h k = k b
    bind_ne_stuck (err e) f h k = λ p. cc
    bind_ne_stuck stuck f h k = λ p. h refl

    read_bytes-ne-stuck :
        ((line : Bytes) (state : S) → handle line state ≢ stuck)
        → (s : Bytes) (buffer : Bytes × S) → read_bytes s buffer ≢ stuck
    unfolding read_bytes read_byte
    read_bytes-ne-stuck h [] buffer = λ p. cc
    read_bytes-ne-stuck h (c ∷ s) (line, state) = elim (Bool-cases (is_end c)) [
      | inl e ↦ rw e (
          bind_ne_stuck (handle line state >>= λ next. ok ([], next)) (λ next. read_bytes s next)
            (bind_ne_stuck (handle line state) (λ next. ok ([], next)) (h line state) (λ b p. cc))
            (λ b. read_bytes-ne-stuck h s b))
      | inr e ↦ rw e (read_bytes-ne-stuck h s (line ++ c ∷ [], state))
    ]

    -- Where the handler returns or throws on every line, the loop ends on every stream and every
    -- way to cut it into chunks.
    pub feed_all-ne-stuck :
        (chunks : List Bytes) (line : Bytes) (state : S)
        → IsOpen line
        → ((line : Bytes) (state : S) → handle line state ≢ stuck)
        → feed_all is_end handle chunks (line, state) ≢ stuck
    feed_all-ne-stuck chunks line state h k =
        rw (feed_all-read_bytes chunks line state h)
          (read_bytes-ne-stuck k (concat chunks) (line, state))
