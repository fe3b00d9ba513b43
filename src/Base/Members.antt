-- ===== src/Base/Members.antt =====
-- Members of a list, and what an order of its elements keeps.
use mathlib.Core.List.{Memᴰ, List, [], ◌∷◌, map}
use mathlib.Core.List.Memᴰ.{head, tail}
use mathlib.Core.Path.{◌≡◌, ◌∙◌, sym, ap, subst}
use mathlib.Core.Logic.{◌⊎◌, inl, inr}
use mathlib.Core.Bool.{Bool, true}
use making_soa_homework.Base.Tests.{Bool-cases}
use making_soa_homework.Base.Lists.{All, select, insert_by, order_by}

module _ {A : Type 0} where
  module _ (P : A → Type 0) where
    All-insert_by :
        (leq : A → A → Bool) (x : A) (l : List A) → P x → All P l → All P (insert_by leq x l)
    unfolding insert_by
    All-insert_by leq x [] p ps = (p, tt)
    All-insert_by leq x (y ∷ l) p ps = elim (Bool-cases (leq x y)) [
      | inl e ↦ rw e (p, ps)
      | inr e ↦ rw e (ps.0, All-insert_by leq x l p ps.1)
    ]

    pub All-order_by : (leq : A → A → Bool) (l : List A) → All P l → All P (order_by leq l)
    unfolding order_by
    All-order_by leq [] ps = tt
    All-order_by leq (x ∷ l) ps =
        All-insert_by leq x (order_by leq l) ps.0 (All-order_by leq l ps.1)

    pub All-Mem : {x : A} (l : List A) → All P l → Memᴰ x l → P x
    All-Mem [] ps m = elim m [ ]
    All-Mem (y ∷ l) ps (head e) = subst P (sym e) ps.0
    All-Mem (y ∷ l) ps (tail m) = All-Mem l ps.1 m

  Mem-insert_by :
      (leq : A → A → Bool) {a : A} (x : A) (l : List A)
      → (a ≡ x) ⊎ Memᴰ a l
      → Memᴰ a (insert_by leq x l)
  unfolding insert_by
  Mem-insert_by leq x [] (inl e) = head e
  Mem-insert_by leq x [] (inr m) = tail m
  Mem-insert_by leq x (y ∷ l) m = elim (Bool-cases (leq x y)) [
    | inl e ↦ rw e (Memᴰ-cons m)
    | inr e ↦ rw e (below (Mem-insert_by leq x l) m)
  ]
    where
      Memᴰ-cons : {a : A} → (a ≡ x) ⊎ Memᴰ a (y ∷ l) → Memᴰ a (x ∷ y ∷ l)
      Memᴰ-cons (inl f) = head f
      Memᴰ-cons (inr n) = tail n

      below :
          {a : A} {rest : List A}
          → ((a ≡ x) ⊎ Memᴰ a l → Memᴰ a rest)
          → (a ≡ x) ⊎ Memᴰ a (y ∷ l)
          → Memᴰ a (y ∷ rest)
      below step (inl f) = tail (step (inl f))
      below step (inr (head f)) = head f
      below step (inr (tail n)) = tail (step (inr n))

  pub Mem-order_by : (leq : A → A → Bool) {a : A} (l : List A) → Memᴰ a l → Memᴰ a (order_by leq l)
  unfolding order_by
  Mem-order_by leq [] m = elim m [ ]
  Mem-order_by leq (x ∷ l) (head e) = Mem-insert_by leq x (order_by leq l) (inl e)
  Mem-order_by leq (x ∷ l) (tail m) =
      Mem-insert_by leq x (order_by leq l) (inr (Mem-order_by leq l m))

pub Mem-map : {A B : Type 0} {a : A} (f : A → B) (l : List A) → Memᴰ a l → Memᴰ (f a) (map f l)
Mem-map f [] m = elim m [ ]
Mem-map f (x ∷ l) (head e) = head (ap f e)
Mem-map f (x ∷ l) (tail m) = tail (Mem-map f l m)

pub Mem-select :
    {A : Type 0} {a : A} (p : A → Bool) (l : List A) → Memᴰ a l → p a ≡ true → Memᴰ a (select p l)
unfolding select
Mem-select p [] m h = elim m [ ]
Mem-select p (x ∷ l) (head e) h = rw (ap p (sym e) ∙ h) (head e)
Mem-select p (x ∷ l) (tail m) h = elim (Bool-cases (p x)) [
  | inl e ↦ rw e (tail (Mem-select p l m h))
  | inr e ↦ rw e (Mem-select p l m h)
]
