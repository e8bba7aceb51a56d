-- ===== src/Json/Parser/Total.antt =====
-- `Json::parse` has an outcome on every text, and what it returns has unique keys.
use expo_builder_local.Prelude.{
  ℕ, zero, suc, ◌+◌, ◌<◌, ◌≤◌, ◌≡◌, ◌≢◌, refl, true, false, Bytes, [], ◌∷◌, ◌==◌, arith, length,
  length-append, length-drop, take, bytes_eq, codes, Bool-cases, inl, inr,
}
use expo_builder_local.Exception.{
  Result, ok, stuck, call, ◌>>=◌, Ensures, Ensures-bind, Ensures-bind_value, Ensures-mono,
  Ensures-if, Ensures-ok, Ensures-ne-stuck, >>=-ne-stuck, >>=-eq-ok,
}
use expo_builder_local.Doubles.{Doubles}
use expo_builder_local.Json.Value.{Json, null, boolean, number, array, object, nil, end}
use expo_builder_local.Json.Access.{set, push_back}
use expo_builder_local.Json.Keys.{HasUniqueKeys, set-HasUniqueKeys, push_back-HasUniqueKeys}
use expo_builder_local.Json.Parser.{
  skip_ws, next, expect, expect_literal, span_digits, span_sign, span_fraction, span_exponent,
  span_number, convert, parse_number, array_loop, array_body, parse_array, object_loop, object_body,
  parse_object, dispatch, parse_value, parse,
}
use expo_builder_local.Json.Parser.Strings.{parse_string}
use expo_builder_local.Json.Parser.Strings.Laws.{Shorter, parse_string-Shorter}

length-skip_ws : (s : Bytes) → length (skip_ws s) ≤ length s
unfolding skip_ws
length-skip_ws [] = omega arith
length-skip_ws (c ∷ s) = ground (arith, length-skip_ws s)

next-Shorter : (s : Bytes) → Ensures (Shorter (length s)) (next s)
unfolding next
next-Shorter [] = tt
next-Shorter (c ∷ s) = omega arith

expect-Shorter : (c : ℕ) (s : Bytes) → Ensures (Shorter (length s)) (expect c s)
unfolding expect next
expect-Shorter c [] = tt
expect-Shorter c (d ∷ s) = ground arith

-- What the scanning loops of `parseNumber` take and leave adds up to the text.
length-span_digits : (s : Bytes) → length (span_digits s).0 + length (span_digits s).1 ≡ length s
unfolding span_digits
length-span_digits [] = omega arith
length-span_digits (c ∷ s) = ground (arith, length-span_digits s)

length-span_sign : (s : Bytes) → length (span_sign s).0 + length (span_sign s).1 ≡ length s
unfolding span_sign
length-span_sign [] = omega arith
length-span_sign (c ∷ s) = ground arith

length-span_fraction :
    (s : Bytes) → length (span_fraction s).0 + length (span_fraction s).1 ≡ length s
unfolding span_fraction
length-span_fraction [] = omega arith
length-span_fraction (c ∷ s) = ground (arith, length-span_digits s)

length-span_exponent :
    (s : Bytes) → length (span_exponent s).0 + length (span_exponent s).1 ≡ length s
unfolding span_exponent
length-span_exponent [] = omega arith
length-span_exponent (c ∷ s) = ground (
  arith,
  length-span_sign s,
  length-span_digits (span_sign s).1,
  length-append (span_sign s).0 (span_digits (span_sign s).1).0,
)

length-span_number : (s : Bytes) → length (span_number s).0 + length (span_number s).1 ≡ length s
unfolding span_number
length-span_number s =
    let s1 = (span_sign s).1 in
    let s2 = (span_digits s1).1 in
    let s3 = (span_fraction s2).1 in
    rw (length-append, length-append, length-append)
      (omega (
        arith,
        length-span_sign s,
        length-span_digits s1,
        length-span_fraction s2,
        length-span_exponent s3,
      ))

module _ {D : Type 0} where
  push_back-ne-stuck : (x j : Json D) → push_back x j ≢ stuck
  unfolding push_back
  push_back-ne-stuck x null = λ p. cc
  push_back-ne-stuck x _ = λ p. cc

  set-ne-stuck : (k : Bytes) (x j : Json D) → set k x j ≢ stuck
  unfolding set
  set-ne-stuck k x null = λ p. cc
  set-ne-stuck k x _ = λ p. cc

  -- A value with unique keys, which left fewer than `n` bytes.
  abbrev Parsed : ℕ → Json D → Bytes → Type 0
  Parsed n j s = (length s < n) × HasUniqueKeys j

module _ (fp : Doubles) where
  open fp use {Double}

  parse_number-Parsed : (s : Bytes) → Ensures (Parsed (length s)) (parse_number fp s)
  unfolding parse_number
  parse_number-Parsed s = convert-Parsed (span_number s).0 (span_number s).1 (length-span_number s)
    where
      convert-Parsed :
          (t rest : Bytes)
          → length t + length rest ≡ length s
          → Ensures (Parsed (length s)) (convert fp t rest)
      convert-Parsed [] rest h = unfold convert in tt
      convert-Parsed (c ∷ t) rest h =
          unfold convert in
          elim (fp.stod (c ∷ t))
            as (λ r. Ensures (Parsed (length s)) (call r >>= λ d. ok (number d, rest))) [
              | inl e ↦ tt
              | inr d ↦ (omega arith, tt)
            ]

  module _ (element : Bytes → Result (Json Double × Bytes)) (n : ℕ)
      (parsed : (t : Bytes) → length t < n → Ensures (Parsed (length t)) (element t)) where
    array_loop-Parsed :
        (f : ℕ) (arr : Json Double) (s : Bytes)
        → length s < n
        → length s < f
        → HasUniqueKeys arr
        → Ensures (Parsed (length s)) (array_loop fp element f arr s)
    unfolding array_loop
    array_loop-Parsed zero arr s hn hf u = absurd (omega arith)
    array_loop-Parsed (suc f) arr s hn hf u =
        let Q : Json Double → Bytes → Type 0 = Parsed (length s) in
        Ensures-bind Q Q (element s) _ (parsed s hn) λ x s1 h1.
          Ensures-bind_value Q (push_back x arr) _ (push_back-ne-stuck x arr) λ arr' e.
            let u' : HasUniqueKeys arr' = push_back-HasUniqueKeys x arr h1.1 u e in
            Ensures-bind (Shorter (length (skip_ws s1))) Q (next (skip_ws s1)) _
              (next-Shorter (skip_ws s1))
              λ c s2 h2.
                let le2 : length s2 < length s = omega (arith, length-skip_ws s1, h1.0) in
                let le3 : length (skip_ws s2) < length s = omega (arith, length-skip_ws s2) in
                Ensures-if Q (c == b']') _ _ (λ _. (le2, u'))
                  λ _.
                    Ensures-if Q (c == b',') _ _
                      (λ _.
                        Ensures-mono (Parsed (length (skip_ws s2))) Q _
                          (λ j r h. (omega (arith, h.0), h.1))
                          (array_loop-Parsed f arr' (skip_ws s2) (omega arith) (omega arith) u'))
                      (λ _. tt)

    array_body-Parsed :
        (whole t : Bytes)
        → length whole ≤ n
        → length t < length whole
        → Ensures (Parsed (length whole)) (array_body fp element whole t)
    unfolding array_body
    array_body-Parsed whole [] hn h = tt
    array_body-Parsed whole (c ∷ s) hn h =
        Ensures-if (Parsed (length whole)) (c == b']') _ _ (λ _. (omega arith, tt))
          λ _.
            Ensures-mono (Parsed (length (c ∷ s))) _ _ (λ j r p. (omega (arith, p.0), p.1))
              (array_loop-Parsed (suc (length whole)) (array nil) (c ∷ s) (omega arith)
                (omega arith) tt)

    parse_array-Parsed :
        (s : Bytes) → length s ≤ n → Ensures (Parsed (length s)) (parse_array fp element s)
    unfolding parse_array
    parse_array-Parsed s hn =
        Ensures-bind (Shorter (length s)) (Parsed (length s)) (expect b'[' s) _
          (expect-Shorter b'[' s)
          λ c s1 h1. array_body-Parsed s (skip_ws s1) hn (omega (arith, length-skip_ws s1, h1))

    object_loop-Parsed :
        (f : ℕ) (obj : Json Double) (s : Bytes)
        → length s ≤ n
        → length s < f
        → HasUniqueKeys obj
        → Ensures (Parsed (length s)) (object_loop fp element f obj s)
    unfolding object_loop
    object_loop-Parsed zero obj s hn hf u = absurd (omega arith)
    object_loop-Parsed (suc f) obj s hn hf u =
        let Q : Json Double → Bytes → Type 0 = Parsed (length s) in
        Ensures-bind (Shorter (length (skip_ws s))) Q (parse_string (skip_ws s)) _
          (parse_string-Shorter (skip_ws s))
          λ key s1 h1.
            Ensures-bind (Shorter (length (skip_ws s1))) Q (expect b':' (skip_ws s1)) _
              (expect-Shorter b':' (skip_ws s1))
              λ colon s2 h2.
                let le2 : length s2 < length s =
                  omega (arith, length-skip_ws s, length-skip_ws s1, h1, h2) in
                Ensures-bind (Parsed (length s2)) Q (element s2) _ (parsed s2 (omega arith))
                  λ v s3 h3.
                    Ensures-bind_value Q (set key v obj) _ (set-ne-stuck key v obj) λ obj' e.
                      let u' : HasUniqueKeys obj' = set-HasUniqueKeys key v obj h3.1 u e in
                      Ensures-bind (Shorter (length (skip_ws s3))) Q (next (skip_ws s3)) _
                        (next-Shorter (skip_ws s3))
                        λ c s4 h4.
                          let le4 : length s4 < length s =
                            omega (arith, length-skip_ws s3, h3.0, h4) in
                          Ensures-if Q (c == b'}') _ _ (λ _. (le4, u'))
                            λ _.
                              Ensures-if Q (c == b',') _ _
                                (λ _.
                                  Ensures-mono (Parsed (length s4)) Q _
                                    (λ j r p. (omega (arith, p.0), p.1))
                                    (object_loop-Parsed f obj' s4 (omega arith) (omega arith) u'))
                                (λ _. tt)

    object_body-Parsed :
        (whole t : Bytes)
        → length whole ≤ n
        → length t < length whole
        → Ensures (Parsed (length whole)) (object_body fp element whole t)
    unfolding object_body
    object_body-Parsed whole [] hn h = tt
    object_body-Parsed whole (c ∷ s) hn h =
        Ensures-if (Parsed (length whole)) (c == b'}') _ _ (λ _. (omega arith, tt))
          λ _.
            Ensures-mono (Parsed (length (c ∷ s))) _ _ (λ j r p. (omega (arith, p.0), p.1))
              (object_loop-Parsed (suc (length whole)) (object end) (c ∷ s) (omega arith)
                (omega arith) tt)

    parse_object-Parsed :
        (s : Bytes) → length s ≤ n → Ensures (Parsed (length s)) (parse_object fp element s)
    unfolding parse_object
    parse_object-Parsed s hn =
        Ensures-bind (Shorter (length s)) (Parsed (length s)) (expect b'{' s) _
          (expect-Shorter b'{' s)
          λ c s1 h1. object_body-Parsed s (skip_ws s1) hn (omega (arith, length-skip_ws s1, h1))

    literal-Parsed :
        (lit s : Bytes) (j : Json Double)
        → 1 ≤ length lit
        → 1 ≤ length s
        → HasUniqueKeys j
        → Ensures (Parsed (length s)) (expect_literal lit s >>= λ p. ok (j, p.1))
    unfolding expect_literal
    literal-Parsed lit s j hl hs u = elim (Bool-cases (bytes_eq (take (length lit) s) lit)) [
      | inl e ↦ rw e (omega (arith, length-drop (length lit) s), u)
      | inr e ↦ rw e tt
    ]

    dispatch-Parsed :
        (s : Bytes) → length s ≤ n → Ensures (Parsed (length s)) (dispatch fp element s)
    unfolding dispatch
    dispatch-Parsed [] hn = tt
    dispatch-Parsed (c ∷ s) hn =
        let Q : Json Double → Bytes → Type 0 = Parsed (length (c ∷ s)) in
        Ensures-if Q (c == b'{') _ _ (λ _. parse_object-Parsed (c ∷ s) hn)
          λ _.
            Ensures-if Q (c == b'[') _ _ (λ _. parse_array-Parsed (c ∷ s) hn)
              λ _.
                Ensures-if Q (c == b'"') _ _
                  (λ _.
                    Ensures-bind (Shorter (length (c ∷ s))) Q (parse_string (c ∷ s)) _
                      (parse_string-Shorter (c ∷ s)) (λ t r h. (h, tt)))
                  λ _.
                    Ensures-if Q (c == b't') _ _
                      (λ _.
                        literal-Parsed (codes "true") (c ∷ s) (boolean true) (omega arith)
                          (omega arith) tt)
                      λ _.
                        Ensures-if Q (c == b'f') _ _
                          (λ _.
                            literal-Parsed (codes "false") (c ∷ s) (boolean false) (omega arith)
                              (omega arith) tt)
                          λ _.
                            Ensures-if Q (c == b'n') _ _
                              (λ _.
                                literal-Parsed (codes "null") (c ∷ s) null (omega arith)
                                  (omega arith) tt)
                              (λ _. parse_number-Parsed (c ∷ s))

  parse_value-Parsed :
      (f : ℕ) (s : Bytes) → length s < f → Ensures (Parsed (length s)) (parse_value fp f s)
  unfolding parse_value
  parse_value-Parsed zero s h = absurd (omega arith)
  parse_value-Parsed (suc f) s h =
      Ensures-mono (Parsed (length (skip_ws s))) _ _
        (λ j r p. (omega (arith, p.0, length-skip_ws s), p.1))
        (dispatch-Parsed (parse_value fp f) f (λ t ht. parse_value-Parsed f t ht) (skip_ws s)
          (omega (arith, length-skip_ws s)))

  pub parse_lem : (s : Bytes) → parse fp s ≡ (parse_value fp (suc (length s)) s >>= λ p. ok p.0)
  unfolding parse
  parse_lem s = refl

  -- `Json::parse` returns or throws on every text: the fuel of the model is never used up.
  pub parse-ne-stuck : (s : Bytes) → parse fp s ≢ stuck
  parse-ne-stuck s = rw parse_lem (
      >>=-ne-stuck (parse_value fp (suc (length s)) s) _
        (Ensures-ne-stuck (Parsed (length s)) _
          (parse_value-Parsed (suc (length s)) s (omega arith)))
        (λ p e q. cc))

  -- In every value that `Json::parse` returns, no object has a key twice.
  pub parse-HasUniqueKeys : (s : Bytes) (j : Json Double) → parse fp s ≡ ok j → HasUniqueKeys j
  parse-HasUniqueKeys s j h =
      let (p, e, q) = >>=-eq-ok (parse_value fp (suc (length s)) s) _ (rw parse_lem at h) in
      let (v, rest) = p in
      let u : HasUniqueKeys v =
        (Ensures-ok (Parsed (length s)) _ (parse_value-Parsed (suc (length s)) s (omega arith))
          e).1 in
      let r : v ≡ j = cc in rw (← r) u
