-- ===== src/Base/Count.antt =====
-- Sums over the rows of a table, and how they change with one row.
use making_soa_homework.Base.Table.{find, modify}
use Prim.Native.Nat.{ℕ, ◌+◌, ◌≤◌}
use mathlib.Core.Path.{◌≡◌, refl, ap}
use mathlib.Core.Bool.{Bool}
use making_soa_homework.Base.Tests.{if◌then◌else◌}
use making_soa_homework.Base.Lists.{select, insert_by, order_by}
use mathlib.Core.Option.{some}
use mathlib.Core.List.{List, [], ◌∷◌, ◌++◌, map}
use native.Mathlib.Omega.{arith}

module _ {A : Type 0} where
  unfoldable pub sum_by : (A → ℕ) → List A → ℕ
  sum_by w [] = 0
  sum_by w (a ∷ t) = w a + sum_by w t

  pub sum_by-append : (w : A → ℕ) (t u : List A) → sum_by w (t ++ u) ≡ sum_by w t + sum_by w u
  unfolding sum_by
  sum_by-append w [] u = omega arith
  sum_by-append w (a ∷ t) u = omega (arith, sum_by-append w t u)

  -- Changing the row that is found moves the sum by the change of its weight.
  pub sum_by-modify :
      (key : A → ℕ) (w : A → ℕ) (i : ℕ) (f : A → A) (t : List A) {a : A}
      → find key i t ≡ some a
      → sum_by w (modify key i f t) + w a ≡ sum_by w t + w (f a)
  unfolding sum_by find modify
  sum_by-modify key w i f [] h = cc
  sum_by-modify key w i f (b ∷ t) {a} h = ground (arith, sum_by-modify key w i f t {a = a})

  -- A row of the table weighs no more than the table.
  pub sum_by-le :
      (key : A → ℕ) (w : A → ℕ) (i : ℕ) (t : List A) {a : A}
      → find key i t ≡ some a
      → w a ≤ sum_by w t
  unfolding sum_by find
  sum_by-le key w i [] h = cc
  sum_by-le key w i (b ∷ t) {a} h = ground (arith, sum_by-le key w i t {a = a})

  sum_by-insert_by :
      (w : A → ℕ) (leq : A → A → Bool) (a : A) (t : List A)
      → sum_by w (insert_by leq a t) ≡ w a + sum_by w t
  unfolding sum_by insert_by
  sum_by-insert_by w leq a [] = refl
  sum_by-insert_by w leq a (b ∷ t) = ground (arith, sum_by-insert_by w leq a t)

  -- An order of the rows keeps every sum over them.
  pub sum_by-order_by :
      (w : A → ℕ) (leq : A → A → Bool) (t : List A) → sum_by w (order_by leq t) ≡ sum_by w t
  unfolding sum_by order_by
  sum_by-order_by w leq [] = refl
  sum_by-order_by w leq (a ∷ t) =
      omega (arith, sum_by-insert_by w leq a (order_by leq t), sum_by-order_by w leq t)

  pub sum_by-select :
      (w : A → ℕ) (p : A → Bool) (t : List A)
      → sum_by w (select p t) ≡ sum_by (λ a. if p a then w a else 0) t
  unfolding sum_by select
  sum_by-select w p [] = refl
  sum_by-select w p (a ∷ t) = ground (arith, sum_by-select w p t)

pub sum_by-map :
    {A B : Type 0} (w : B → ℕ) (f : A → B) (t : List A)
    → sum_by w (map f t) ≡ sum_by (λ a. w (f a)) t
unfolding sum_by
sum_by-map w f [] = refl
sum_by-map w f (a ∷ t) = ap (λ (n : ℕ). w (f a) + n) (sum_by-map w f t)
