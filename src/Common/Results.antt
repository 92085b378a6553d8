-- ===== src/Common/Results.antt =====
-- What a fallible Rust function gives: `Ok`, `Err`, or a panic (`expect`, `assert!`, an index out
-- of range, `unreachable!`).
use mathlib.Core.Option.{Option, none, some}
use mathlib.Core.Path.{◌≡◌, refl}
use mathlib.Core.Bool.{Bool, true, false}
use mathlib.Core.Logic.{◌≢◌, ◌⊎◌, inl, inr}

pub data Outcome {ℓ} (E : Type ℓ) (A : Type ℓ) : Type ℓ where
  ok : A → Outcome E A
  err : E → Outcome E A
  panicked : Outcome E A

infixl 5 ◌>>=◌
abbrev pub ◌>>=◌ {ℓ} : {E A B : Type ℓ} → Outcome E A → (A → Outcome E B) → Outcome E B
ok a >>= f = f a
err e >>= f = err e
panicked >>= f = panicked

-- `Option::ok_or` and `Result::map_err` followed by `?`
abbrev pub ok_or {ℓ} : {E A : Type ℓ} → Option A → E → Outcome E A
ok_or (some a) e = ok a
ok_or none e = err e

-- `expect`
abbrev pub expect {ℓ} : {E A : Type ℓ} → Option A → Outcome E A
expect (some a) = ok a
expect none = panicked

abbrev pub is_err {ℓ} : {E A : Type ℓ} → Outcome E A → Bool
is_err (err e) = true
is_err _ = false

-- `Result::map_err`
abbrev pub map_err {ℓ} : {E F A : Type ℓ} → (E → F) → Outcome E A → Outcome F A
map_err f (ok a) = ok a
map_err f (err e) = err (f e)
map_err f panicked = panicked

-- `expect` on a `Result`
abbrev pub expect_ok {ℓ} : {E F A : Type ℓ} → Outcome F A → Outcome E A
expect_ok (ok a) = ok a
expect_ok _ = panicked

-- What a successful chain tells of its first step.
module _ {ℓ} {E A B : Type ℓ} where
  pub >>=-eq-ok :
      (step : Outcome E A) (rest : A → Outcome E B) {last : B}
      → (step >>= rest) ≡ ok last
      → (first : A) × (step ≡ ok first) × (rest first ≡ ok last)
  >>=-eq-ok panicked rest h = cc
  >>=-eq-ok (err e) rest h = cc
  >>=-eq-ok (ok first) rest h = (first, refl, h)

pub map_err-eq-ok {ℓ} :
    {E F A : Type ℓ} (f : E → F) (m : Outcome E A) {a : A} → map_err f m ≡ ok a → m ≡ ok a
map_err-eq-ok f (ok a) h = cc
map_err-eq-ok f (err e) h = cc
map_err-eq-ok f panicked h = cc

pub expect-eq-ok {ℓ} : {E A : Type ℓ} (o : Option A) {a : A} → expect {E = E} o ≡ ok a → o ≡ some a
expect-eq-ok (some a) h = cc
expect-eq-ok none h = cc

pub expect_ok-eq-ok {ℓ} :
    {E F A : Type ℓ} (m : Outcome F A) {a : A} → expect_ok {E = E} m ≡ ok a → m ≡ ok a
expect_ok-eq-ok (ok a) h = cc
expect_ok-eq-ok (err e) h = cc
expect_ok-eq-ok panicked h = cc

pub ok_or-eq-ok {ℓ} : {E A : Type ℓ} (o : Option A) (e : E) {a : A} → ok_or o e ≡ ok a → o ≡ some a
ok_or-eq-ok (some a) e h = cc
ok_or-eq-ok none e h = cc

-- A chain does not panic if none of its steps does.
pub >>=-ne-panicked {ℓ} :
    {E A B : Type ℓ} (m : Outcome E A) (f : A → Outcome E B)
    → m ≢ panicked
    → ((a : A) → m ≡ ok a → f a ≢ panicked)
    → (m >>= f) ≢ panicked
>>=-ne-panicked (ok a) f h k = k a refl
>>=-ne-panicked (err e) f h k = λ p. cc
>>=-ne-panicked panicked f h k = λ p. h refl

pub map_err-ne-panicked {ℓ} :
    {E F A : Type ℓ} (f : E → F) (m : Outcome E A) → m ≢ panicked → map_err f m ≢ panicked
map_err-ne-panicked f (ok a) h = λ p. cc
map_err-ne-panicked f (err e) h = λ p. cc
map_err-ne-panicked f panicked h = λ p. h refl

pub ok_or-ne-panicked {ℓ} : {E A : Type ℓ} (o : Option A) (e : E) → ok_or o e ≢ panicked
ok_or-ne-panicked (some a) e = λ p. cc
ok_or-ne-panicked none e = λ p. cc

-- To split on a computed result and keep the equation.
pub Outcome-cases {ℓ} :
    {E A : Type ℓ} (m : Outcome E A)
    → ((a : A) × (m ≡ ok a)) ⊎ ((e : E) × (m ≡ err e)) ⊎ (m ≡ panicked)
Outcome-cases (ok a) = inl (a, refl)
Outcome-cases (err e) = inr (inl (e, refl))
Outcome-cases panicked = inr (inr refl)

pub err-injective {ℓ} : {E A : Type ℓ} {a b : E} → ◌≡◌ {A = Outcome E A} (err a) (err b) → a ≡ b
err-injective h = cc

pub ok-injective {ℓ} : {E A : Type ℓ} {a b : A} → ◌≡◌ {A = Outcome E A} (ok a) (ok b) → a ≡ b
ok-injective h = cc
