-- ===== src/Base/Exec.antt =====
-- Computations on a state that may raise. What was written before a raise stays written, so the
-- state comes back beside the error too.
use mathlib.Core.Path.{◌≡◌, refl}
use mathlib.Core.Logic.{◌⊎◌, inl, inr}

pub data Result {ℓ κ} (E : Type ℓ) (A : Type κ) : Type (ℓ ⊔ κ) where
  ok : A → Result E A
  err : E → Result E A

pub Result-cases {ℓ κ} :
    {E : Type ℓ} {A : Type κ} (r : Result E A) → ((a : A) × (r ≡ ok a)) ⊎ ((e : E) × (r ≡ err e))
Result-cases (ok a) = inl (a, refl)
Result-cases (err e) = inr (e, refl)

abbrev pub Exec : Type 0 → Type 0 → Type 0 → Type 0
Exec E S A = S → Result E A × S

module _ {E S A : Type 0} where
  unfoldable pub pure : A → Exec E S A
  pure a s = (ok a, s)

  -- Reads the state, may raise, and writes nothing.
  unfoldable pub ask : (S → Result E A) → Exec E S A
  ask f s = (f s, s)

unfoldable pub write : {E S : Type 0} → (S → S) → Exec E S (Unit {0})
write f s = (ok tt, f s)

module _ {E S A B : Type 0} where
  abbrev pub continue : Result E A → (A → Exec E S B) → Exec E S B
  continue (ok a) f s = f a s
  continue (err e) f s = (err e, s)

  -- A block is opened by this name: it opens `pure`, `ask` and `write` too.
  infixl 5 ◌>>=◌ ◌>>◌
  unfoldable pub ◌>>=◌ : Exec E S A → (A → Exec E S B) → Exec E S B
  unfolding pure ask write
  ◌>>=◌ m f s = let (r, s') = m s in continue r f s'

  abbrev pub ◌>>◌ : Exec E S A → Exec E S B → Exec E S B
  m >> k = m >>= λ _. k

  continue-ok :
      (r : Result E A) (f : A → Exec E S B) (s : S) {b : B} {t : S}
      → continue r f s ≡ (ok b, t)
      → (a : A) × (r ≡ ok a) × (f a s ≡ (ok b, t))
  continue-ok (ok a) f s h = (a, refl, h)
  continue-ok (err e) f s h = cc

  -- A block that returns has passed through its first part: in general, and for a check.
  pub bind-ok :
      (m : Exec E S A) (f : A → Exec E S B) (s : S) {b : B} {t : S}
      → (m >>= f) s ≡ (ok b, t)
      → (a : A) × ((m s).0 ≡ ok a) × (f a (m s).1 ≡ (ok b, t))
  unfolding ◌>>=◌
  bind-ok m f s h = continue-ok (m s).0 f (m s).1 h

  pub ask-ok :
      (c : S → Result E A) (f : A → Exec E S B) (s : S) {b : B} {t : S}
      → (ask c >>= f) s ≡ (ok b, t)
      → (a : A) × (c s ≡ ok a) × (f a s ≡ (ok b, t))
  unfolding ◌>>=◌
  ask-ok c f s h = continue-ok (c s) f s h

pub write-ok :
    {E S B : Type 0} (g : S → S) (f : Unit {0} → Exec E S B) (s : S) {r : Result E B × S}
    → (write g >>= f) s ≡ r
    → f tt (g s) ≡ r
unfolding ◌>>=◌
write-ok g f s h = h

pub pure-ok :
    {E S A : Type 0} (a : A) (s : S) {b : A} {t : S}
    → pure {E = E} a s ≡ (ok b, t)
    → (b ≡ a) × (t ≡ s)
unfolding pure
pure-ok a s h = (cc, cc)
