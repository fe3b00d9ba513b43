-- ===== src/Market/Session/Outcome.antt =====
-- What a request has done when it is answered: a block that returns is committed, and an error
-- leaves what is committed as it was.
use making_soa_homework.Base.{◌≡◌, ◌∙◌, arith, refl, Bool, true, false, if◌then◌else◌}
use making_soa_homework.Base.Exec.{Result, ok, err, continue, ◌>>=◌, ◌>>◌, ask}
use making_soa_homework.Market.Models.{Db}
use making_soa_homework.Market.Errors.{Error, Fallible}
use making_soa_homework.Market.Session.{
  Session, Body, Handler, nested, begun, flushed, query, and_commit, with_transaction, respond,
}

module _ {A : Type 0} where
  -- The answer of a block: its result, and what is committed behind it.
  abbrev pub settle : Db → Result Error A × Db → Result Error A × Db
  settle d (ok a, d') = (ok a, d')
  settle d (err e, d') = (err e, d)

  -- Whether a transaction was active or not, the answer is the block's, and what is committed behind
  -- it is all that the block wrote, or nothing if it raised.
  pub with_transaction-settle :
      (body : Body A) (d : Db) (b : Bool)
      → let r = with_transaction body (record { committed = d; pending = d; in_transaction = b }) in
        (r.0, r.1.committed) ≡ settle d (body d)
  unfolding with_transaction
  with_transaction-settle body d b = split (body d) b
    where
      split :
          (r : Result Error A × Db) (b : Bool)
          → let s : Session = record { committed = d; pending = d; in_transaction = b } in
            let q = if b then nested s r else begun s r in (q.0, q.1.committed) ≡ settle d r
      split (ok a, d') true = refl
      split (ok a, d') false = refl
      split (err e, d') true = refl
      split (err e, d') false = refl

  pub respond-with_transaction :
      (body : Body A) (d : Db) → respond (with_transaction body) d ≡ settle d (body d)
  unfolding respond
  respond-with_transaction body d = with_transaction-settle body d true

  settle-ok :
      (d : Db) (r : Result Error A × Db) {a : A} {d' : Db}
      → settle d r ≡ (ok a, d')
      → r ≡ (ok a, d')
  settle-ok d (ok a, d1) h = h
  settle-ok d (err e, d1) h = cc

  settle-err :
      (d : Db) (r : Result Error A × Db) {e : Error} {d' : Db} → settle d r ≡ (err e, d') → d' ≡ d
  settle-err d (ok a, d1) h = cc
  settle-err d (err e, d1) h = cc

  pub respond_block-ok :
      (body : Body A) (d : Db) {a : A} {d' : Db}
      → respond (with_transaction body) d ≡ (ok a, d')
      → body d ≡ (ok a, d')
  respond_block-ok body d h = settle-ok d (body d) (rw respond-with_transaction at h)

  pub respond_block-err :
      (body : Body A) (d : Db) {e : Error} {d' : Db}
      → respond (with_transaction body) d ≡ (err e, d')
      → d' ≡ d
  respond_block-err body d h = settle-err d (body d) (rw respond-with_transaction at h)

module _ {A : Type 0} where
  -- A block that raises.
  pub settle_raises :
      (d : Db) (r : Result Error A × Db) {e : Error} → r.0 ≡ err e → settle d r ≡ (err e, d)
  settle_raises d (ok a, d') p = cc
  settle_raises d (err e, d') p = ground arith

  pub respond_block_raises :
      (body : Body A) (d : Db) {e : Error}
      → (body d).0 ≡ err e
      → respond (with_transaction body) d ≡ (err e, d)
  respond_block_raises body d h = respond-with_transaction body d ∙ settle_raises d (body d) h

  pub respond-query : (f : Db → Fallible A) (d : Db) → respond (query f) d ≡ (f d, d)
  unfolding respond query
  respond-query f d = refl

-- A handler that reads, and then writes and commits.
module _ {R A : Type 0} (load : Db → Fallible R) (body : R → Body A) where
  abbrev pub written : Handler A
  written = do a ← query load; and_commit (body a)

  abbrev outcome : Db → Fallible R → Result Error A × Db
  outcome d (err e) = (err e, d)
  outcome d (ok a) = settle d (body a d)

  flushed-settle :
      (d : Db) (r : Result Error A × Db)
      → let s : Session = record { committed = d; pending = d; in_transaction = true } in
        let q = flushed s r in (q.0, q.1.committed) ≡ settle d r
  flushed-settle d (ok a, d') = refl
  flushed-settle d (err e, d') = refl

  pub respond-written : (d : Db) → respond written d ≡ outcome d (load d)
  unfolding respond query and_commit ◌>>=◌
  respond-written d = split (load d)
    where
      s : Session
      s = record { committed = d; pending = d; in_transaction = true }

      split :
          (l : Fallible R)
          → let r = continue l (λ a. and_commit (body a)) s in (r.0, r.1.committed) ≡ outcome d l
      split (ok a) = flushed-settle d (body a d)
      split (err e) = refl

  pub respond-written-ok :
      (d : Db) {a : A} {d' : Db}
      → respond written d ≡ (ok a, d')
      → (row : R) × (load d ≡ ok row) × (body row d ≡ (ok a, d'))
  respond-written-ok d {a} {d'} h = split (load d) refl (rw respond-written at h)
    where
      split :
          (l : Fallible R)
          → load d ≡ l
          → outcome d l ≡ (ok a, d')
          → (row : R) × (load d ≡ ok row) × (body row d ≡ (ok a, d'))
      split (ok row) p q = (row, p, settle-ok d (body row d) q)
      split (err e) p q = cc

  pub respond-written-err :
      (d : Db) {e : Error} {d' : Db} → respond written d ≡ (err e, d') → d' ≡ d
  respond-written-err d {e} {d'} h = split (load d) (rw respond-written at h)
    where
      split : (l : Fallible R) → outcome d l ≡ (err e, d') → d' ≡ d
      split (ok row) q = settle-err d (body row d) q
      split (err e) q = cc

-- A handler that reads a row, checks it, and runs a block on it.
module _ {R A : Type 0} (load : Db → Fallible R) (check : R → Fallible (Unit {0}))
    (body : R → Body A) where
  abbrev pub loaded : Handler A
  loaded = do a ← query load; ask (λ s. check a); with_transaction (body a)

  abbrev answer : Db → Fallible R → Result Error A × Db
  answer d (err e) = (err e, d)
  answer d (ok a) = elim (check a) [ err e ↦ (err e, d) | ok _ ↦ settle d (body a d) ]

  pub respond-loaded : (d : Db) → respond loaded d ≡ answer d (load d)
  unfolding respond query ◌>>=◌
  respond-loaded d = split (load d)
    where
      s : Session
      s = record { committed = d; pending = d; in_transaction = true }

      checked :
          (a : R) (c : Fallible (Unit {0}))
          → let r = continue c (λ _. with_transaction (body a)) s in
            (r.0, r.1.committed) ≡ elim c [ err e ↦ (err e, d) | ok _ ↦ settle d (body a d) ]
      checked a (ok _) = with_transaction-settle (body a) d true
      checked a (err e) = refl

      split :
          (l : Fallible R)
          → let r = continue l (λ a. ask (λ s. check a) >>= λ _. with_transaction (body a)) s in
            (r.0, r.1.committed) ≡ answer d l
      split (ok a) = checked a (check a)
      split (err e) = refl

  -- An answer that is no error: the row was there, it passed the check, and the block returned.
  pub respond-loaded-ok :
      (d : Db) {a : A} {d' : Db}
      → respond loaded d ≡ (ok a, d')
      → (row : R) × (load d ≡ ok row) × (check row ≡ ok tt) × (body row d ≡ (ok a, d'))
  respond-loaded-ok d {a} {d'} h = split (load d) refl (rw respond-loaded at h)
    where
      checked :
          (row : R) (c : Fallible (Unit {0}))
          → elim c [ err e ↦ (err e, d) | ok _ ↦ settle d (body row d) ] ≡ (ok a, d')
          → (c ≡ ok tt) × (body row d ≡ (ok a, d'))
      checked row (ok _) q = (refl, settle-ok d (body row d) q)
      checked row (err e) q = cc

      split :
          (l : Fallible R)
          → load d ≡ l
          → answer d l ≡ (ok a, d')
          → (row : R) × (load d ≡ ok row) × (check row ≡ ok tt) × (body row d ≡ (ok a, d'))
      split (ok row) p q = let (c, b) = checked row (check row) q in (row, p, c, b)
      split (err e) p q = cc

  pub respond-loaded-err : (d : Db) {e : Error} {d' : Db} → respond loaded d ≡ (err e, d') → d' ≡ d
  respond-loaded-err d {e} {d'} h = split (load d) (rw respond-loaded at h)
    where
      checked :
          (row : R) (c : Fallible (Unit {0}))
          → elim c [ err e ↦ (err e, d) | ok _ ↦ settle d (body row d) ] ≡ (err e, d')
          → d' ≡ d
      checked row (ok _) q = settle-err d (body row d) q
      checked row (err e) q = cc

      split : (l : Fallible R) → answer d l ≡ (err e, d') → d' ≡ d
      split (ok row) q = checked row (check row) q
      split (err e) q = cc

  -- A row that is not to be had, and one that does not pass the check.
  pub respond-loaded_unread : (d : Db) {e : Error} → load d ≡ err e → respond loaded d ≡ (err e, d)
  respond-loaded_unread d h = respond-loaded d ∙ rw h

  pub respond-loaded_unfit :
      (d : Db) {row : R} {e : Error}
      → load d ≡ ok row
      → check row ≡ err e
      → respond loaded d ≡ (err e, d)
  respond-loaded_unfit d h c = respond-loaded d ∙ rw (h, answer, c)

  -- A row that is there and passes the check: the block is run on it.
  pub respond-loaded_fit :
      (d : Db) {row : R}
      → load d ≡ ok row
      → check row ≡ ok tt
      → respond loaded d ≡ settle d (body row d)
  respond-loaded_fit d h c = respond-loaded d ∙ rw (h, answer, c)
