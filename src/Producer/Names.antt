-- ===== src/Producer/Names.antt =====
-- No name that dz_5/producer-service/app/generator.py draws is empty.
use Prim.Native.String.{◌++◌ as ◌<>◌, count}
use text.Mathlib.Text.{◌==◌ as str_eq}
use text.Mathlib.TextEquality.{eq_iff}
use text.Mathlib.TextLemmas.{length-append}
use mathlib.Core.List.{Memᴰ}
use mathlib.Core.List.Memᴰ.{head, tail}
use making_soa_homework.Base.{
  ℕ, zero, suc, ◌≤◌, ◌≡◌, sym, ap, subst, false, String, All, Bool-cases, inl, inr, arith,
}
use making_soa_homework.Base.Members.{All-Mem}
use making_soa_homework.Producer.Choices.{indexed_names, search_terms}

pub prefixed_full : (name rest : String) → 1 ≤ count name → str_eq (name <> rest) "" ≡ false
prefixed_full name rest long = elim (Bool-cases (str_eq (name <> rest) "")) [
  | inl e ↦
      let none_left = ap count ((eq_iff (name <> rest) "").0 e) in
      absurd (omega (arith, length-append name rest, none_left))
  | inr e ↦ e
]

pub indexed_names_full :
    (name s : String) (first n : ℕ)
    → 1 ≤ count name
    → Memᴰ s (indexed_names name first n)
    → str_eq s "" ≡ false
unfolding indexed_names
indexed_names_full name s first zero long there = elim there [ ]
indexed_names_full name s first (suc n) long (head e) =
    subst (λ t. str_eq t "" ≡ false) (sym e) (prefixed_full name _ long)
indexed_names_full name s first (suc n) long (tail there) =
    indexed_names_full name s (suc first) n long there

terms_full : All (λ s. str_eq s "" ≡ false) search_terms
terms_full = ground arith

pub term_full : (s : String) → Memᴰ s search_terms → str_eq s "" ≡ false
term_full s there = All-Mem (λ t. str_eq t "" ≡ false) search_terms terms_full there
