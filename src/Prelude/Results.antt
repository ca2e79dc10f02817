-- ===== src/Prelude/Results.antt =====
-- Rust's `Result`, and methods that change their object and may fail.
use mathlib.Core.Path.{◌≡◌, refl, ap}

pub data Result {ℓ} (A E : Type ℓ) : Type ℓ where
  ok : A → Result A E
  err : E → Result A E

-- `&mut self` with a fallible result: what was changed before an error stays changed.
abbrev pub Exec {ℓ} : Type ℓ → Type ℓ → Type ℓ → Type ℓ
Exec S E A = S → Result A E × S

module _ {ℓ} {S E A : Type ℓ} where
  abbrev pub pure : A → Exec S E A
  pure a s = (ok a, s)

  abbrev pub raise : E → Exec S E A
  raise e s = (err e, s)

module _ {ℓ} {S E A B : Type ℓ} where
  abbrev pub continue : Result A E → (A → Exec S E B) → Exec S E B
  continue (ok a) f s = f a s
  continue (err e) f s = (err e, s)

  infixl 10 ◌>>=◌ ◌>>◌
  unfoldable pub ◌>>=◌ : Exec S E A → (A → Exec S E B) → Exec S E B
  ◌>>=◌ m f s = let (r, s') = m s in continue r f s'

  abbrev pub ◌>>◌ : Exec S E A → Exec S E B → Exec S E B
  m >> n = m >>= λ _. n

  pub bind_ok :
      (m : Exec S E A) (f : A → Exec S E B) (s s' : S) (a : A)
      → m s ≡ (ok a, s')
      → (m >>= f) s ≡ f a s'
  unfolding ◌>>=◌
  bind_ok m f s s' a h = rw h

  pub bind_err :
      (m : Exec S E A) (f : A → Exec S E B) (s s' : S) (e : E)
      → m s ≡ (err e, s')
      → (m >>= f) s ≡ (err e, s')
  unfolding ◌>>=◌
  bind_err m f s s' e h = rw h

  continue_inv :
      (x : Result A E) (f : A → Exec S E B) (s s' : S) (b : B)
      → continue x f s ≡ (ok b, s')
      → (a : A) × (x ≡ ok a) × (f a s ≡ (ok b, s'))
  continue_inv (ok a) f s s' b h = (a, refl, h)
  continue_inv (err e) f s s' b h = cc (ap (λ p. p.0) h)

  -- A block that succeeds has passed through a success of its first step.
  pub bind-eq-ok :
      (m : Exec S E A) (f : A → Exec S E B) (s s' : S) (b : B)
      → (m >>= f) s ≡ (ok b, s')
      → (a : A) × ((m s).0 ≡ ok a) × (f a (m s).1 ≡ (ok b, s'))
  unfolding ◌>>=◌
  bind-eq-ok m f s s' b h = continue_inv (m s).0 f (m s).1 s' b h
