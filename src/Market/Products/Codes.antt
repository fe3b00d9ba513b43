-- ===== src/Market/Products/Codes.antt =====
-- `create_promo_code`: дз_2/app/src/main.py.
use text.Mathlib.Text.{◌==◌ as str_eq}
use text.Mathlib.TextPositions.{eq_refl}
use making_soa_homework.Base.{
  ◌≡◌, refl, sym, ap, subst, true, false, none, some, String, List, [], ◌∷◌, Bool-cases, inl, inr,
  arith,
}
use making_soa_homework.Base.Exec.{Result, ok, err, Result-cases, ◌>>=◌}
use making_soa_homework.Market.Models.{User, PromoCode, Db}
use making_soa_homework.Market.Errors.{Error, database_error}
use making_soa_homework.Market.Access.{denied, has_role, merchants, respond-as_role}
use making_soa_homework.Market.Session.{
  Context, Session, Body, stored, flushed, and_commit, respond,
}
use making_soa_homework.Market.Session.Outcome.{settle}
use making_soa_homework.Market.Promo.{find_code}
use making_soa_homework.Market.Products.{PromoCodeCreate, has_code, promo_body, create_promo_code}

-- No two promo codes have the same text.
abbrev pub CodesDiffer : List PromoCode → Type 0
CodesDiffer [] = Unit
CodesDiffer (p ∷ t) = (find_code p.code t ≡ none) × CodesDiffer t

module _ {A : Type 0} where
  committed :
      (d : Db) (r : Result Error A × Db)
      → let s : Session = record { committed = d; pending = d; in_transaction = true } in
        let q = flushed s r in (q.0, q.1.committed) ≡ settle d r
  committed d (ok a, d') = refl
  committed d (err e, d') = refl

  respond-and_commit : (body : Body A) (d : Db) → respond (and_commit body) d ≡ settle d (body d)
  unfolding respond and_commit
  respond-and_commit body d = committed d (body d)

has_code-find_code : (c : String) (t : List PromoCode) → has_code c t ≡ false → find_code c t ≡ none
unfolding find_code
has_code-find_code c [] h = refl
has_code-find_code c (p ∷ t) h = ground (arith, has_code-find_code c t)

find_code-has_code :
    (c : String) (t : List PromoCode) {p : PromoCode} → find_code c t ≡ some p → has_code c t ≡ true
unfolding find_code
find_code-has_code c [] h = cc
find_code-has_code c (q ∷ t) {p} h = elim (Bool-cases (str_eq q.code c)) [
  | inl e ↦ ground arith
  | inr e ↦
      let below : find_code c t ≡ some p = ground arith in
      ground (arith, find_code-has_code c t below)
]

-- What the block leaves.
record Posts (x : Context) (payload : PromoCodeCreate) (d : Db) (p : PromoCode) (d' : Db)
    : Type 0 where
  free : find_code payload.code d.promo_codes ≡ none
  after : d' ≡ record d { promo_codes = p ∷ d.promo_codes }
  code : p.code ≡ payload.code
  unused : p.current_uses ≡ 0

promo_body-ok :
    (x : Context) (payload : PromoCodeCreate) (d : Db) (p : PromoCode) (d' : Db)
    → promo_body x payload d ≡ (ok p, d')
    → Posts x payload d p d'
unfolding promo_body ◌>>=◌
promo_body-ok x payload d p d' h = elim (Bool-cases (has_code payload.code d.promo_codes)) [
  | inl e ↦ absurd (ground arith)
  | inr e ↦ elim (Result-cases (stored x payload.discount_value)) [
    | inr (m, f) ↦ absurd (ground arith)
    | inl (v, f) ↦ elim (Result-cases (stored x payload.min_order_amount)) [
      | inr (m, g) ↦ absurd (ground arith)
      | inl (w, g) ↦ record {
        free = has_code-find_code payload.code d.promo_codes e;
        after = ground arith;
        code = ground arith;
        unused = ground arith;
      }
    ]
  ]
]

promo_body_taken :
    (x : Context) (payload : PromoCodeCreate) (d : Db)
    → has_code payload.code d.promo_codes ≡ true
    → (promo_body x payload d).0 ≡ err database_error
unfolding promo_body ◌>>=◌
promo_body_taken x payload d h = ground arith

found_first :
    (c : String) (p : PromoCode) (t : List PromoCode) → p.code ≡ c → find_code c (p ∷ t) ≡ some p
unfolding find_code
found_first c p t e = ground (arith, e, eq_refl c)

pub record Codes (x : Context) (user : User) (payload : PromoCodeCreate) (d : Db)
    (run : Result Error PromoCode × Db) : Type 0 where
  pub differ : CodesDiffer d.promo_codes → CodesDiffer run.1.promo_codes
  pub created :
      (p : PromoCode)
      → run.0 ≡ ok p
      → (find_code payload.code run.1.promo_codes ≡ some p) × (p.current_uses ≡ 0)
  pub taken :
      (p : PromoCode)
      → has_role merchants user.role ≡ true
      → find_code payload.code d.promo_codes ≡ some p
      → run ≡ (err database_error, d)

posted :
    (x : Context) (user : User) (payload : PromoCodeCreate) (d : Db) (p : PromoCode) (d' : Db)
    → promo_body x payload d ≡ (ok p, d')
    → Codes x user payload d (ok p, d')
posted x user payload d p d' h =
    let made = promo_body-ok x payload d p d' h in
    record {
      differ = λ differ. rw made.after (rw made.code made.free, differ);
      created = λ q e.
          let same : p ≡ q = cc in
          subst
            (λ (r : PromoCode).
              (find_code payload.code d'.promo_codes ≡ some r) × (r.current_uses ≡ 0))
            same (rw made.after (found_first payload.code p d.promo_codes made.code), made.unused);
      taken = λ q may f. absurd (ground (arith, made.free));
    }

refused :
    (x : Context) (user : User) (payload : PromoCodeCreate) (d : Db) (e : Error) (d' : Db)
    → promo_body x payload d ≡ (err e, d')
    → Codes x user payload d (err e, d)
refused x user payload d e d' h = record {
  differ = λ differ. differ;
  created = λ p f. absurd (ground arith);
  taken = λ p may f.
      let there = find_code-has_code payload.code d.promo_codes f in
      let same = promo_body_taken x payload d there in
      let e' : e ≡ database_error = ground (arith, same) in ap (λ g. (err g, d)) e';
}

forbidden :
    (x : Context) (user : User) (payload : PromoCodeCreate) (d : Db)
    → has_role merchants user.role ≡ false
    → Codes x user payload d (err denied, d)
forbidden x user payload d other = record {
  differ = λ differ. differ;
  created = λ p f. absurd (ground arith);
  taken = λ p may f. absurd (ground arith);
}

block :
    (x : Context) (user : User) (payload : PromoCodeCreate) (d : Db)
    (q : Result Error PromoCode × Db)
    → promo_body x payload d ≡ q
    → Codes x user payload d (settle d q)
block x user payload d (ok p, d') h = posted x user payload d p d' h
block x user payload d (err e, d') h = refused x user payload d e d' h

-- If no two promo codes have the same text, then so after a request to create one, whatever it is
-- answered with. A code that is answered is the one that its text finds, and is unused. For a
-- merchant, a text that is there is answered with 500, and nothing changes.
pub create_promo_code-Codes :
    (x : Context) (user : User) (payload : PromoCodeCreate) (d : Db)
    → Codes x user payload d (respond (create_promo_code x user payload) d)
unfolding create_promo_code
create_promo_code-Codes x user payload d =
    let h = and_commit (promo_body x payload) in
    subst (Codes x user payload d) (sym (respond-as_role merchants user h d))
      (elim (Bool-cases (has_role merchants user.role)) [
        | inl may ↦ rw may (
            subst (Codes x user payload d) (sym (respond-and_commit (promo_body x payload) d))
              (block x user payload d (promo_body x payload d) refl))
        | inr other ↦ rw other (forbidden x user payload d other)
      ])
