-- ===== src/Market/Products/Pages.antt =====
-- The pages of the catalogue, read one after another, are the matching products.
use making_soa_homework.Base.{
  ℕ, zero, suc, ◌+◌, ◌*◌, ◌≤◌, ◌≡◌, ◌∙◌, refl, sym, ap, List, [], ◌∷◌, ◌++◌, arith, length, take,
  drop,
}
use native.Mathlib.Nat.{zero-add}
use making_soa_homework.Market.Models.{Product}
use making_soa_homework.Market.Products.{page_of}

-- The first `n` pages.
unfoldable pub pages : ℕ → ℕ → List Product → List Product
pages zero size t = []
pages (suc n) size t = pages n size t ++ page_of n size t

take-nil : (n : ℕ) → take {A = Product} n [] ≡ []
take-nil zero = refl
take-nil (suc n) = refl

take-add : (m n : ℕ) (t : List Product) → take (m + n) t ≡ take m t ++ take n (drop m t)
take-add zero n t = rw zero-add
take-add (suc m) n [] = let e : suc m + n ≡ suc (m + n) = omega arith in rw e (sym (take-nil n))
take-add (suc m) n (p ∷ t) =
    let e : suc m + n ≡ suc (m + n) = omega arith in rw e (ap (◌∷◌ p) (take-add m n t))

take-all : (n : ℕ) (t : List Product) → length t ≤ n → take n t ≡ t
take-all zero [] h = refl
take-all zero (p ∷ t) h = absurd (omega arith)
take-all (suc n) [] h = refl
take-all (suc n) (p ∷ t) h = ap (◌∷◌ p) (take-all n t (omega arith))

pages-take : (n size : ℕ) (t : List Product) → pages n size t ≡ take (n * size) t
unfolding pages page_of
pages-take zero size t = let e : 0 * size ≡ 0 = omega arith in rw e
pages-take (suc n) size t =
    let e : suc n * size ≡ n * size + size = omega arith in
    rw (pages-take n size t, e) (sym (take-add (n * size) size t))

-- As many pages as the products need, taken from the same list, hold every product once, in the
-- order of the list.
pub pages_complete : (n size : ℕ) (t : List Product) → length t ≤ n * size → pages n size t ≡ t
pages_complete n size t h = pages-take n size t ∙ take-all (n * size) t h
