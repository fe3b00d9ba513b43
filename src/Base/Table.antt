-- ===== src/Base/Table.antt =====
-- A database table as the list of its rows, each with an identifier. Rows are found and changed by
-- their identifier, which is unique in the database.
use making_soa_homework.Base.Tests.{◌==◌, if◌then◌else◌}
use Prim.Native.Nat.{ℕ}
use mathlib.Core.Path.{◌≡◌}
use mathlib.Core.Option.{Option, none, some}
use mathlib.Core.List.{List, [], ◌∷◌}
use native.Mathlib.Omega.{arith}

module _ {A : Type 0} (key : A → ℕ) where
  -- `query(T).filter(T.id == i).one_or_none()`
  unfoldable pub find : ℕ → List A → Option A
  find i [] = none
  find i (a ∷ t) = if key a == i then some a else find i t

  -- A change of the row `i`; with no such row nothing changes.
  unfoldable pub modify : ℕ → (A → A) → List A → List A
  modify i f [] = []
  modify i f (a ∷ t) = if key a == i then f a ∷ t else a ∷ modify i f t

  pub find-modify :
      (i j : ℕ) (f : A → A) (t : List A)
      → ((a : A) → key (f a) ≡ key a)
      → find j (modify i f t)
        ≡ (if i == j then elim (find j t) [ none ↦ none | some a ↦ some (f a) ] else find j t)
  unfolding find modify
  find-modify i j f [] h = ground arith
  find-modify i j f (a ∷ t) h = ground (arith, h a, find-modify i j f t h)

  -- The row `i` put anew.
  pub find-modify_const :
      (i j : ℕ) (b : A) (t : List A)
      → key b ≡ i
      → find j (modify i (λ _. b) t)
        ≡ (if i == j then elim (find j t) [ none ↦ none | some a ↦ some b ] else find j t)
  unfolding find modify
  find-modify_const i j b [] h = ground arith
  find-modify_const i j b (a ∷ t) h = ground (arith, find-modify_const i j b t h)

  pub key-find : (i : ℕ) (t : List A) {a : A} → find i t ≡ some a → key a ≡ i
  unfolding find
  key-find i [] h = cc
  key-find i (b ∷ t) {a} h = ground (arith, key-find i t {a = a})

  -- A primary key: no two rows share it.
  abbrev pub IsKeyed : List A → Type 0
  IsKeyed [] = Unit
  IsKeyed (a ∷ t) = (find (key a) t ≡ none) × IsKeyed t

  find-modify-none :
      (i j : ℕ) (f : A → A) (t : List A)
      → ((a : A) → key (f a) ≡ key a)
      → find j t ≡ none
      → find j (modify i f t) ≡ none
  find-modify-none i j f t h p = ground (arith, find-modify i j f t h)

  pub modify-IsKeyed :
      (i : ℕ) (f : A → A) (t : List A)
      → ((a : A) → key (f a) ≡ key a)
      → IsKeyed t
      → IsKeyed (modify i f t)
  unfolding modify
  modify-IsKeyed i f [] h k = tt
  modify-IsKeyed i f (a ∷ t) h k =
      ground (arith, h a, modify-IsKeyed i f t h k.1, find-modify-none i (key a) f t h k.0)
