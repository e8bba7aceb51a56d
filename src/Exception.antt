-- ===== src/Exception.antt =====
-- The exceptions that the C++ code throws, and the result of a call that may throw. `stuck` is no
-- outcome of the code: a loop that runs on fuel returns it when the fuel is used up.
use expo_builder_local.Prelude.{
  Bool, true, false, if◌then◌else◌, Bytes, ◌≡◌, refl, ◌≢◌, ◌⊎◌, inl, inr,
}

pub data Exception : Type 0 where
  -- ebl::JsonError, with its message
  json_error : Bytes → Exception
  -- std::runtime_error, with its message
  runtime_error : Bytes → Exception
  -- std::invalid_argument and std::out_of_range, of std::stoi, std::stoul and std::stod
  invalid_argument out_of_range : Exception

pub data Result {ℓ} (A : Type ℓ) : Type ℓ where
  ok : A → Result A
  err : Exception → Result A
  stuck : Result A

pub ok_inj {ℓ} : {A : Type ℓ} {a b : A} → ok a ≡ ok b → a ≡ b
ok_inj h = cc

-- A call of a library function that throws or returns.
abbrev pub call {ℓ} : {A : Type ℓ} → Exception ⊎ A → Result A
call (inl e) = err e
call (inr a) = ok a

module _ {ℓ κ} {A : Type ℓ} {B : Type κ} where
  infixl 5 ◌>>=◌
  -- The rest of a chain runs where the first call returns.
  abbrev pub ◌>>=◌ : Result A → (A → Result B) → Result B
  stuck >>= next = stuck
  err e >>= next = err e
  ok value >>= next = next value

  -- The value of a first call in a chain that returns.
  pub >>=-eq-ok :
      (first : Result A) (next : A → Result B) {final : B}
      → (first >>= next) ≡ ok final
      → (value : A) × (first ≡ ok value) × (next value ≡ ok final)
  >>=-eq-ok stuck next h = cc
  >>=-eq-ok (err e) next h = cc
  >>=-eq-ok (ok value) next h = (value, refl, h)

infixl 5 ◌>>◌
abbrev pub ◌>>◌ {κ} : {B : Type κ} → Result (Unit {0}) → Result B → Result B
first >> rest = first >>= λ done. rest

-- A chain of calls has an outcome if the first has one, and the rest has one on every value of it.
pub >>=-ne-stuck {ℓ κ} :
    {A : Type ℓ} {B : Type κ} (m : Result A) (f : A → Result B)
    → m ≢ stuck
    → ((a : A) → m ≡ ok a → f a ≢ stuck)
    → (m >>= f) ≢ stuck
>>=-ne-stuck (ok a) f hm hf = hf a refl
>>=-ne-stuck (err e) f hm hf = λ p. cc
>>=-ne-stuck stuck f hm hf = λ p. hm refl

pub Result-cases {ℓ} :
    {A : Type ℓ} (r : Result A)
    → r ≢ stuck
    → ((a : A) × (r ≡ ok a)) ⊎ ((e : Exception) × (r ≡ err e))
Result-cases (ok a) h = inl (a, refl)
Result-cases (err e) h = inr (e, refl)
Result-cases stuck h = absurd (h refl)

-- Total correctness of a reader: it has an outcome, and a value that it returns meets `P` together
-- with the input that it leaves.
abbrev pub Ensures {ℓ} : {A B : Type ℓ} → (A → B → Type 0) → Result (A × B) → Type 0
Ensures P (ok (a, s)) = P a s
Ensures P (err e) = Unit
Ensures P stuck = ⊥

pub Ensures-bind {ℓ} :
    {A B C D : Type ℓ} (P : A → B → Type 0) (Q : C → D → Type 0) (m : Result (A × B))
    (f : A × B → Result (C × D))
    → Ensures P m
    → ((a : A) (s : B) → P a s → Ensures Q (f (a, s)))
    → Ensures Q (m >>= f)
Ensures-bind P Q (ok (a, s)) f hm hf = hf a s hm
Ensures-bind P Q (err e) f hm hf = tt
Ensures-bind P Q stuck f hm hf = absurd hm

pub Ensures-ne-stuck {ℓ} :
    {A B : Type ℓ} (P : A → B → Type 0) (m : Result (A × B)) → Ensures P m → m ≢ stuck
Ensures-ne-stuck P (ok (a, s)) h = λ p. cc
Ensures-ne-stuck P (err e) h = λ p. cc
Ensures-ne-stuck P stuck h = absurd h

pub Ensures-ok {ℓ} :
    {A B : Type ℓ} (P : A → B → Type 0) (m : Result (A × B)) {a : A} {s : B}
    → Ensures P m
    → m ≡ ok (a, s)
    → P a s
Ensures-ok P m h e = rw e at h

pub Ensures-bind_value {ℓ} :
    {A C D : Type ℓ} (Q : C → D → Type 0) (m : Result A) (f : A → Result (C × D))
    → m ≢ stuck
    → ((a : A) → m ≡ ok a → Ensures Q (f a))
    → Ensures Q (m >>= f)
Ensures-bind_value Q (ok a) f hm hf = hf a refl
Ensures-bind_value Q (err e) f hm hf = tt
Ensures-bind_value Q stuck f hm hf = absurd (hm refl)

pub Ensures-mono {ℓ} :
    {A B : Type ℓ} (P Q : A → B → Type 0) (m : Result (A × B))
    → ((a : A) (s : B) → P a s → Q a s)
    → Ensures P m
    → Ensures Q m
Ensures-mono P Q (ok (a, s)) f h = f a s h
Ensures-mono P Q (err e) f h = tt
Ensures-mono P Q stuck f h = absurd h

-- The two branches of a test, each where the test has its value.
pub Ensures-if {ℓ} :
    {A B : Type ℓ} (P : A → B → Type 0) (b : Bool) (m n : Result (A × B))
    → (b ≡ true → Ensures P m)
    → (b ≡ false → Ensures P n)
    → Ensures P (if b then m else n)
Ensures-if P true m n hm hn = hm refl
Ensures-if P false m n hm hn = hn refl
