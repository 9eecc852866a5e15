-- ===== src/Base/Flow.antt =====
-- `for … { if err != nil { return res, err } }`: a loop over a state that a failing round ends.
use mathlib.Core.Path.{◌≡◌, refl}
use mathlib.Core.Logic.{◌⊎◌, inl, inr}
use mathlib.Core.Option.{Option, none, some}
use mathlib.Core.List.{List, [], ◌∷◌}

-- A statement that changes the state and may fail; what was written before the failure stays.
abbrev pub Stmt {ℓ} : Type ℓ → Type ℓ → Type ℓ
Stmt S E = S → S × Option E

module _ {ℓ} {S E : Type ℓ} where
  abbrev pub next : S × Option E → Stmt S E → S × Option E
  next (s, none) k = k s
  next (s, some e) k = (s, some e)

  pub next-eq-ok :
      (r : S × Option E) (k : Stmt S E) {t : S}
      → next r k ≡ (t, none)
      → (s : S) × (r ≡ (s, none)) × (k s ≡ (t, none))
  next-eq-ok (s, none) k h = (s, refl, h)
  next-eq-ok (s, some e) k h = cc

module _ {ℓ} {A S E : Type ℓ} where
  unfoldable pub for_each : (A → Stmt S E) → List A → Stmt S E
  for_each step [] s = (s, none)
  for_each step (x ∷ xs) s = next (step x s) (for_each step xs)

-- A value and an error of Go: one of the two.
pub data Result {ℓ} (E A : Type ℓ) : Type ℓ where
  ok : A → Result E A
  err : E → Result E A

module _ {ℓ} {A E : Type ℓ} where
  pub ok-inv : (a b : A) → ◌≡◌ {A = Result E A} (ok a) (ok b) → a ≡ b
  ok-inv a b h = cc

  pub Result-cases : (r : Result E A) → ((a : A) × (r ≡ ok a)) ⊎ ((x : E) × (r ≡ err x))
  Result-cases (ok a) = inl (a, refl)
  Result-cases (err x) = inr (x, refl)

module _ {ℓ} {A S E : Type ℓ} where
  pub for_each-cons-ok :
      (step : A → Stmt S E) (x : A) (xs : List A) (s : S) {t : S}
      → for_each step (x ∷ xs) s ≡ (t, none)
      → (mid : S) × (step x s ≡ (mid, none)) × (for_each step xs mid ≡ (t, none))
  unfolding for_each
  for_each-cons-ok step x xs s h = next-eq-ok (step x s) (for_each step xs) h

infixl 5 ◌>>=◌
abbrev pub ◌>>=◌ {ℓ} : {E A B : Type ℓ} → Result E A → (A → Result E B) → Result E B
(ok a) >>= f = f a
(err x) >>= f = err x

infixl 5 ◌>>◌
abbrev pub ◌>>◌ {ℓ} : {E B : Type ℓ} → Result E (Unit {ℓ}) → Result E B → Result E B
(ok _) >> s = s
(err x) >> s = err x

module _ {ℓ} {E A B : Type ℓ} where
  -- What a chain of fallible steps has passed when it succeeds.
  pub bind-ok :
      (r : Result E A) (f : A → Result E B) (b : B)
      → (r >>= f) ≡ ok b
      → (a : A) × (r ≡ ok a) × (f a ≡ ok b)
  bind-ok (ok a) f b h = (a, refl, h)
  bind-ok (err x) f b h = cc

module _ {ℓ} {E B : Type ℓ} where
  pub then-ok :
      (r : Result E (Unit {ℓ})) (s : Result E B) (b : B)
      → (r >> s) ≡ ok b
      → (r ≡ ok tt) × (s ≡ ok b)
  then-ok (ok tt) s b h = (refl, h)
  then-ok (err x) s b h = cc
