-- ===== src/Common/Effects.antt =====
-- Code that acts on the world outside and may fail: the world comes back beside the result, also
-- beside an error.
use mathlib.Core.Path.{◌≡◌, refl, sym, subst}
use logos_whistleblower.Common.Results.{Outcome, ok, err, panicked, ok-injective}

abbrev pub Action : Type 0 → Type 0 → Type 0 → Type 0
Action W E A = W → Outcome E A × W

module _ {W E A : Type 0} where
  abbrev pub pure : A → Action W E A
  pure a w = (ok a, w)

  -- A step that does not touch the world.
  abbrev pub lift : Outcome E A → Action W E A
  lift r w = (r, w)

  -- A look at the world.
  abbrev pub gets : (W → A) → Action W E A
  gets f w = (ok (f w), w)

-- A step that always succeeds.
abbrev pub effect : {W E : Type 0} → (W → W) → Action W E (Unit {0})
effect f w = (ok tt, f w)

-- A `Result` that is looked at, not passed on by `?`; a panic goes on.
module _ {W E F A : Type 0} where
  abbrev pub caught : Outcome E A → W → Outcome F (Outcome E A) × W
  caught (ok a) w = (ok (ok a), w)
  caught (err e) w = (ok (err e), w)
  caught panicked w = (panicked, w)

  abbrev pub attempt : Action W E A → Action W F (Outcome E A)
  attempt m w = let (r, w') = m w in caught r w'

module _ {W E A B : Type 0} where
  abbrev pub continue : Outcome E A → (A → Action W E B) → Action W E B
  continue (ok a) f w = f a w
  continue (err e) f w = (err e, w)
  continue panicked f w = (panicked, w)

  infixl 5 ◌>>=◌ ◌>>◌
  abbrev pub ◌>>=◌ : Action W E A → (A → Action W E B) → Action W E B
  ◌>>=◌ m f w = let (r, w') = m w in continue r f w'

  abbrev pub ◌>>◌ : Action W E A → Action W E B → Action W E B
  m >> n = m >>= λ _. n

  -- A rest that leaves the world alone.
  pub continue-world :
      (r : Outcome E A) (f : A → Action W E B) (w : W)
      → ((a : A) (v : W) → (f a v).1 ≡ v)
      → (continue r f w).1 ≡ w
  continue-world (ok a) f w h = h a w
  continue-world (err e) f w h = refl
  continue-world panicked f w h = refl

  -- What the first step and the rest leave, the chain leaves.
  continue-keeps :
      (P : W → Type 0) (r : Outcome E A) (f : A → Action W E B) (w : W)
      → P w
      → ((a : A) → r ≡ ok a → P (f a w).1)
      → P (continue r f w).1
  continue-keeps P (ok a) f w h k = k a refl
  continue-keeps P (err e) f w h k = h
  continue-keeps P panicked f w h k = h

  pub >>=-keeps :
      (P : W → Type 0) (m : Action W E A) (f : A → Action W E B) (w : W)
      → P (m w).1
      → ((a : A) → (m w).0 ≡ ok a → P (f a (m w).1).1)
      → P ((m >>= f) w).1
  >>=-keeps P m f w h k = continue-keeps P (m w).0 f (m w).1 h k

  -- What a chain that succeeds tells of its first step and of the rest.
  continue-eq-ok :
      (result : Outcome E A) (rest : A → Action W E B) (w : W) {last : B} {w' : W}
      → continue result rest w ≡ (ok last, w')
      → (first : A) × (result ≡ ok first) × (rest first w ≡ (ok last, w'))
  continue-eq-ok panicked rest w h = cc
  continue-eq-ok (err e) rest w h = cc
  continue-eq-ok (ok first) rest w h = (first, refl, h)

  pub >>=-eq-ok :
      (step : Action W E A) (rest : A → Action W E B) (w : W) {last : B} {w' : W}
      → (step >>= rest) w ≡ (ok last, w')
      → (first : A) × ((step w).0 ≡ ok first) × (rest first (step w).1 ≡ (ok last, w'))
  >>=-eq-ok step rest w h = continue-eq-ok (step w).0 rest (step w).1 h

  continue-result :
      (r : Outcome E A) (f : A → Action W E B) (w : W) {b : B}
      → (continue r f w).0 ≡ ok b
      → (a : A) × (r ≡ ok a) × ((f a w).0 ≡ ok b)
  continue-result (ok a) f w h = (a, refl, h)
  continue-result (err e) f w h = cc
  continue-result panicked f w h = cc

  pub >>=-result :
      (m : Action W E A) (f : A → Action W E B) (w : W) {b : B}
      → ((m >>= f) w).0 ≡ ok b
      → (a : A) × ((m w).0 ≡ ok a) × ((f a (m w).1).0 ≡ ok b)
  >>=-result m f w h = continue-result (m w).0 f (m w).1 h

  -- A chain of steps that succeed succeeds.
  continue-ok :
      (r : Outcome E A) (f : A → Action W E B) (w : W) {a : A} {b : B}
      → r ≡ ok a
      → (f a w).0 ≡ ok b
      → (continue r f w).0 ≡ ok b
  continue-ok (ok x) f w {a} {b} h k = subst (λ y. (f y w).0 ≡ ok b) (sym (ok-injective h)) k
  continue-ok (err e) f w h k = cc
  continue-ok panicked f w h k = cc

  pub >>=-ok :
      (m : Action W E A) (f : A → Action W E B) (w : W) {a : A} {b : B}
      → (m w).0 ≡ ok a
      → (f a (m w).1).0 ≡ ok b
      → ((m >>= f) w).0 ≡ ok b
  >>=-ok m f w h k = continue-ok (m w).0 f (m w).1 h k

  -- A property of result and world: failures of the first step have it, and the rest gives it.
  continue-ensures :
      (P : Outcome E B × W → Type 0) (r : Outcome E A) (f : A → Action W E B) (w : W)
      → ((e : E) → P (err e, w))
      → P (panicked, w)
      → ((a : A) → r ≡ ok a → P (f a w))
      → P (continue r f w)
  continue-ensures P (ok a) f w he hp k = k a refl
  continue-ensures P (err e) f w he hp k = he e
  continue-ensures P panicked f w he hp k = hp

  pub >>=-ensures :
      (P : Outcome E B × W → Type 0) (m : Action W E A) (f : A → Action W E B) (w : W)
      → ((e : E) → P (err e, (m w).1))
      → P (panicked, (m w).1)
      → ((a : A) → (m w).0 ≡ ok a → P (f a (m w).1))
      → P ((m >>= f) w)
  >>=-ensures P m f w he hp k = continue-ensures P (m w).0 f (m w).1 he hp k

  -- The same, told which result the first step had.
  continue-cases :
      (P : Outcome E B × W → Type 0) (r : Outcome E A) (f : A → Action W E B) (w : W)
      → ((e : E) → r ≡ err e → P (err e, w))
      → (r ≡ panicked → P (panicked, w))
      → ((a : A) → r ≡ ok a → P (f a w))
      → P (continue r f w)
  continue-cases P (ok a) f w he hp k = k a refl
  continue-cases P (err e) f w he hp k = he e refl
  continue-cases P panicked f w he hp k = hp refl

  pub >>=-cases :
      (P : Outcome E B × W → Type 0) (m : Action W E A) (f : A → Action W E B) (w : W)
      → ((e : E) → (m w).0 ≡ err e → P (err e, (m w).1))
      → ((m w).0 ≡ panicked → P (panicked, (m w).1))
      → ((a : A) → (m w).0 ≡ ok a → P (f a (m w).1))
      → P ((m >>= f) w)
  >>=-cases P m f w he hp k = continue-cases P (m w).0 f (m w).1 he hp k

  continue-result_congr :
      (r : Outcome E A) (f g : A → Action W E B) (w : W)
      → ((a : A) (v : W) → (f a v).0 ≡ (g a v).0)
      → (continue r f w).0 ≡ (continue r g w).0
  continue-result_congr (ok a) f g w h = h a w
  continue-result_congr (err e) f g w h = refl
  continue-result_congr panicked f g w h = refl

  -- Rests with the same results make chains with the same result.
  pub >>=-result_congr :
      (m : Action W E A) (f g : A → Action W E B) (w : W)
      → ((a : A) (v : W) → (f a v).0 ≡ (g a v).0)
      → ((m >>= f) w).0 ≡ ((m >>= g) w).0
  >>=-result_congr m f g w h = continue-result_congr (m w).0 f g (m w).1 h
