-- ===== src/Steps.antt =====
-- Code that may throw and that changes the world outside of it: each step leaves the world in some
-- state, whether it returns or throws.
use expo_builder_local.Prelude.{Bool, true, false, ◌≡◌, refl, ap}
use expo_builder_local.Exception.{Exception, Result, ok, err, stuck, ok_inj}

abbrev pub Step : Type 0 → Type 0 → Type 0
Step W A = W → Result A × W

module _ {W : Type 0} where
  abbrev pub and_then : {A B : Type 0} → Result A × W → (A → Step W B) → Result B × W
  and_then (ok a, w) f = f a w
  and_then (err e, w) f = (err e, w)
  and_then (stuck, w) f = (stuck, w)

  infixl 5 ◌>>=◌
  abbrev pub ◌>>=◌ : {A B : Type 0} → Step W A → (A → Step W B) → Step W B
  (m >>= f) w = and_then (m w) f

  abbrev pub ret : {A : Type 0} → A → Step W A
  ret a w = (ok a, w)

  abbrev pub lift : {A : Type 0} → Result A → Step W A
  lift r w = (r, w)

  abbrev pub throw : {A : Type 0} → Exception → Step W A
  throw e w = (err e, w)

  -- A test on what was computed, and a throw where it fails.
  abbrev pub check : Bool → Exception → Step W (Unit {0})
  check true e w = (ok tt, w)
  check false e w = (err e, w)

  abbrev pub handled : {A : Type 0} → Result A × W → (Exception → Step W A) → Result A × W
  handled (ok a, w) f = (ok a, w)
  handled (err e, w) f = f e w
  handled (stuck, w) f = (stuck, w)

  -- catch (const std::exception&)
  abbrev pub catch : {A : Type 0} → Step W A → (Exception → Step W A) → Step W A
  catch m f w = handled (m w) f

  -- The first step of a chain that returns has returned, and so has the rest.
  pub and_then_ok :
      {A B : Type 0} (r : Result A × W) (f : A → Step W B) {b : B} {w' : W}
      → and_then r f ≡ (ok b, w')
      → (a : A) × (w1 : W) × (r ≡ (ok a, w1)) × (f a w1 ≡ (ok b, w'))
  and_then_ok (ok a, w1) f h = (a, w1, refl, h)
  and_then_ok (err e, w1) f h = cc
  and_then_ok (stuck, w1) f h = cc

  pub check_ok :
      (b : Bool) (e : Exception) (w : W) {u : Unit {0}} {w' : W}
      → check b e w ≡ (ok u, w')
      → (b ≡ true) × (w ≡ w')
  check_ok true e w h = (refl, ap (λ x. x.1) h)
  check_ok false e w h = cc

  pub lift_ok :
      {A : Type 0} (r : Result A) (w : W) {a : A} {w' : W}
      → lift r w ≡ (ok a, w')
      → (r ≡ ok a) × (w ≡ w')
  lift_ok r w h = (ap (λ x. x.0) h, ap (λ x. x.1) h)

  pub ret_ok :
      {A : Type 0} (a : A) (w : W) {b : A} {w' : W} → ret a w ≡ (ok b, w') → (a ≡ b) × (w ≡ w')
  ret_ok a w h = (ok_inj (ap (λ x. x.0) h), ap (λ x. x.1) h)
