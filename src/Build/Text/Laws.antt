-- ===== src/Build/Text/Laws.antt =====
-- What is left of a line without its escapes.
use expo_builder_local.Prelude.{
  ℕ, Bytes, [], ◌∷◌, Bool, true, false, ◌&&◌, ◌==◌, ◌≡◌, refl, ap, arith, All, Bool-cases, inl, inr,
  if◌then◌else◌,
}
use expo_builder_local.Build.Text.{
  esc, is_control, is_final, strip_ansi_escapes, strip_csi, strip_osc, is_blank, trim_front,
  trim_back, keep_unless_blank, clean_line,
}

-- A byte that a line of the dashboard may have: no control byte, tab excepted.
abbrev pub IsShown : ℕ → Type 0
IsShown c = is_control c ≡ false

if-All : (b : Bool) (s t : Bytes) → All IsShown s → All IsShown t → All IsShown (if b then s else t)
if-All true s t h k = h
if-All false s t h k = k

kept_or_skipped :
    (b : Bool) (c : ℕ) (s : Bytes)
    → is_control c ≡ b
    → All IsShown s
    → All IsShown (if b then s else c ∷ s)
kept_or_skipped true c s e h = h
kept_or_skipped false c s e h = (e, h)

mutual
  unfolding strip_ansi_escapes strip_csi strip_osc

  strip-IsShown : (s : Bytes) → All IsShown (strip_ansi_escapes s)
  strip-IsShown [] = tt
  strip-IsShown (c ∷ []) = elim (Bool-cases (is_control c)) [
    | inl e ↦ rw e tt
    | inr e ↦ rw e (e, tt)
  ]
  strip-IsShown (c ∷ next ∷ s) =
      if-All (c == esc)
        (if next == b'['
          then strip_csi s
          else if next == b']'
          then strip_osc s
          else strip_ansi_escapes s)
        _
        (if-All (next == b'[') (strip_csi s) _ (csi-IsShown s)
          (if-All (next == b']') (strip_osc s) _ (osc-IsShown s) (strip-IsShown s)))
        (kept_or_skipped (is_control c) c (strip_ansi_escapes (next ∷ s)) refl
          (strip-IsShown (next ∷ s)))

  csi-IsShown : (s : Bytes) → All IsShown (strip_csi s)
  csi-IsShown [] = tt
  csi-IsShown (c ∷ s) = if-All (is_final c) _ _ (strip-IsShown s) (csi-IsShown s)

  osc-IsShown : (s : Bytes) → All IsShown (strip_osc s)
  osc-IsShown [] = tt
  osc-IsShown (c ∷ []) = tt
  osc-IsShown (c ∷ next ∷ s) =
      if-All (c == 7) (strip_ansi_escapes (next ∷ s)) _ (strip-IsShown (next ∷ s)) (
        if-All (c == esc && next == b'\\') (strip_ansi_escapes s) (strip_osc (next ∷ s))
          (strip-IsShown s) (osc-IsShown (next ∷ s)))

-- A text without control bytes, such as no escape can begin in.
strip_shown : (s : Bytes) → All IsShown s → strip_ansi_escapes s ≡ s
unfolding strip_ansi_escapes
strip_shown [] h = refl
strip_shown (c ∷ []) (hc, h) = rw hc refl
strip_shown (c ∷ next ∷ s) (hc, h) =
    let e : (c == esc) ≡ false = unfold is_control in ground (arith, hc) in
    rw (e, hc) (ap (λ l. c ∷ l) (strip_shown (next ∷ s) h))

trim_front-IsShown : (s : Bytes) → All IsShown s → All IsShown (trim_front s)
unfolding trim_front
trim_front-IsShown [] h = tt
trim_front-IsShown (c ∷ s) (hc, h) = if-All (is_blank c) _ _ (trim_front-IsShown s h) (hc, h)

keep-IsShown : (c : ℕ) (s : Bytes) → IsShown c → All IsShown s → All IsShown (keep_unless_blank c s)
unfolding keep_unless_blank
keep-IsShown c [] hc h = if-All (is_blank c) [] (c ∷ []) tt (hc, tt)
keep-IsShown c (d ∷ s) hc h = (hc, h)

trim_back-IsShown : (s : Bytes) → All IsShown s → All IsShown (trim_back s)
unfolding trim_back
trim_back-IsShown [] h = tt
trim_back-IsShown (c ∷ s) (hc, h) = keep-IsShown c (trim_back s) hc (trim_back-IsShown s h)

pub clean_line-IsShown : (line : Bytes) → All IsShown (clean_line line)
unfolding clean_line
clean_line-IsShown line =
    trim_back-IsShown (trim_front (strip_ansi_escapes line))
      (trim_front-IsShown (strip_ansi_escapes line) (strip-IsShown line))

-- What `stripAnsiEscapes` leaves has no control byte but tabs, so that no escape is left in it, and it
-- leaves every text as it is that has none: to strip it again changes nothing.
pub strip_ansi_escapes_lem :
    (s : Bytes)
    → All IsShown (strip_ansi_escapes s)
      × (All IsShown s → strip_ansi_escapes s ≡ s)
      × (strip_ansi_escapes (strip_ansi_escapes s) ≡ strip_ansi_escapes s)
strip_ansi_escapes_lem s =
    (strip-IsShown s, strip_shown s, strip_shown (strip_ansi_escapes s) (strip-IsShown s))
