-- ===== src/Producer/Publish/Attempts.antt =====
-- One attempt of `publish`: what it keeps, hands to Kafka and returns:
-- dz_5/producer-service/app/kafka_client.py.
use making_soa_homework.Base.{
  ℕ, suc, ◌≤◌, ◌<◌, ◌^◌, ◌≡◌, refl, ap, ◌∙◌, true, false, none, some, ◌∷◌, ◌++◌, ◌⊎◌, String, All,
  arith, length, Option-cases, inl, inr,
}
use making_soa_homework.Base.Retry.{is_ok}
use making_soa_homework.Base.Exec.{Result, ok, err, Result-cases}
use making_soa_homework.Producer.Events.{AvroDict}
use making_soa_homework.Producer.Registry.{
  Bytes, Cache, pack_header, parse_message, encode, encode-Message,
}
use making_soa_homework.Producer.Publish.{Attempt, Publisher, Sent, is_failed, publish_once}

module _ {Schema : Type 0} (write : Schema → AvroDict → Result String Bytes) where
  -- The identifier of a schema fits the header, and the writer takes the payload under it.
  abbrev pub Fits : AvroDict → ℕ × Schema → Type 0
  Fits payload (id, schema) = (id < 2 ^ 32) × (is_ok (write schema payload) ≡ true)

  abbrev pub CacheFits : AvroDict → Cache Schema → Type 0
  CacheFits payload none = Unit
  CacheFits payload (some s) = Fits payload s

  abbrev pub AnswerFits : AvroDict → Result String (ℕ × Schema) → Type 0
  AnswerFits payload (ok s) = Fits payload s
  AnswerFits payload (err m) = Unit

  pub encode-CacheFits :
      (answer : Result String (ℕ × Schema)) (payload : AvroDict) (cache : Cache Schema)
      → AnswerFits payload answer
      → CacheFits payload cache
      → CacheFits payload (encode write answer payload cache).1
  unfolding encode
  encode-CacheFits answer payload (some s) fits kept = kept
  encode-CacheFits (ok s) payload none fits kept = fits
  encode-CacheFits (err m) payload none fits kept = tt

  encode-is_ok :
      (s : ℕ × Schema) (payload : AvroDict) (cache : Cache Schema)
      → Fits payload s
      → CacheFits payload cache
      → is_ok (encode write (ok s) payload cache).0 ≡ true
  unfolding encode pack_header
  encode-is_ok (id, schema) payload none fits kept = elim (Result-cases (write schema payload)) [
    | inl (body, f) ↦ let lt = fits.0 in ground arith
    | inr (m, f) ↦ let ok' = fits.1 in absurd (ground arith)
  ]
  encode-is_ok s payload (some (id, schema)) fits kept =
      elim (Result-cases (write schema payload)) [
        | inl (body, f) ↦ let lt = kept.0 in ground arith
        | inr (m, f) ↦ let ok' = kept.1 in absurd (ground arith)
      ]

  pub encodes :
      (payload : AvroDict) (answer : Result String (ℕ × Schema)) (q : ℕ × Schema)
      (cache : Cache Schema)
      → answer ≡ ok q
      → AnswerFits payload answer
      → CacheFits payload cache
      → is_ok (encode write answer payload cache).0 ≡ true
  encodes payload (ok p) q cache h fits kept = encode-is_ok p payload cache fits kept
  encodes payload (err m) q cache h fits kept = cc

  pub publish_once-registry :
      (key : String) (payload : AvroDict) (a : Attempt Schema) (s : Publisher Schema)
      → (publish_once write key payload a s).1.registry
        ≡ (encode write a.answer payload s.registry).1
  unfolding publish_once encode
  publish_once-registry key payload a s =
      elim (Result-cases (encode write a.answer payload s.registry).0) [
        | inl (m, e) ↦ ground arith
        | inr (f, e) ↦ ground arith
      ]

  -- An attempt hands nothing to Kafka, or what `encode` has made.
  publish_once-sent :
      (key : String) (payload : AvroDict) (a : Attempt Schema) (s : Publisher Schema)
      → ((publish_once write key payload a s).1.sent ≡ s.sent)
        ⊎ ((message : Bytes) × ((encode write a.answer payload s.registry).0 ≡ ok message)
            × ((publish_once write key payload a s).1.sent ≡ (key, message) ∷ s.sent))
  unfolding publish_once
  publish_once-sent key payload a s =
      elim (Result-cases (encode write a.answer payload s.registry).0) [
        | inl (m, e) ↦ elim (Option-cases a.refused) [
          | inl f ↦ inr (m, e, ground arith)
          | inr (t, f) ↦ inl (ground arith)
        ]
        | inr (f, e) ↦ inl (ground arith)
      ]

  pub publish_once-ok :
      (key : String) (payload : AvroDict) (a : Attempt Schema) (s : Publisher Schema)
      → is_ok (encode write a.answer payload s.registry).0 ≡ true
      → a.refused ≡ none
      → is_failed a.report ≡ false
      → (publish_once write key payload a s).0 ≡ ok key
  unfolding publish_once
  publish_once-ok key payload a s made taken fine = ground arith

  pub publish_once-key :
      (key : String) (payload : AvroDict) (a : Attempt Schema) (s : Publisher Schema) (k : String)
      → (publish_once write key payload a s).0 ≡ ok k
      → k ≡ key
  unfolding publish_once
  publish_once-key key payload a s k h = ground arith

  -- A record that a consumer reads as the payload, under its key.
  pub record Readable (key : String) (payload : AvroDict) (q : String × Bytes) : Type 0 where
    pub under : q.0 ≡ key
    pub id : ℕ
    pub schema : Schema
    pub body : Bytes
    pub avro : write schema payload ≡ ok body
    pub read : parse_message q.1 ≡ some (id, body)

  pub encode-Readable :
      (key : String) (payload : AvroDict) (answer : Result String (ℕ × Schema))
      (cache : Cache Schema) (message : Bytes)
      → (encode write answer payload cache).0 ≡ ok message
      → Readable key payload (key, message)
  encode-Readable key payload answer cache message e =
      let cache' = (encode write answer payload cache).1 in
      let m = encode-Message write answer payload cache cache' message (ap (λ r. (r, cache')) e) in
      record {
        under = refl;
        id = m.id;
        schema = m.schema;
        body = m.body;
        avro = m.avro;
        read = m.read;
      }

  -- The records that have been handed over since `base`.
  pub record Adds (key : String) (payload : AvroDict) (base : Sent) (s : Publisher Schema)
      : Type 0 where
    pub new : Sent
    pub since : s.sent ≡ new ++ base
    pub readable : All (Readable key payload) new

  Adds-one :
      (key : String) (payload : AvroDict) (base : Sent) (a : Attempt Schema)
      (s s' : Publisher Schema) (message : Bytes)
      → (encode write a.answer payload s.registry).0 ≡ ok message
      → s'.sent ≡ (key, message) ∷ s.sent
      → Adds key payload base s
      → Adds key payload base s'
  Adds-one key payload base a s s' message made e h = record {
    new = (key, message) ∷ h.new;
    since = e ∙ ap (λ l. (key, message) ∷ l) h.since;
    readable = (encode-Readable key payload a.answer s.registry message made, h.readable);
  }

  pub publish_once-Adds :
      (key : String) (payload : AvroDict) (base : Sent) (a : Attempt Schema) (s : Publisher Schema)
      → Adds key payload base s
      → Adds key payload base (publish_once write key payload a s).1
  publish_once-Adds key payload base a s h = elim (publish_once-sent key payload a s) [
    | inl same ↦ record { new = h.new; since = same ∙ h.since; readable = h.readable }
    | inr (message, made, e) ↦ Adds-one key payload base a s _ message made e h
  ]

  pub publish_once-length :
      (key : String) (payload : AvroDict) (a : Attempt Schema) (s : Publisher Schema)
      → length (publish_once write key payload a s).1.sent ≤ suc (length s.sent)
  publish_once-length key payload a s = elim (publish_once-sent key payload a s) [
    | inl same ↦ rw same (omega arith)
    | inr (message, made, e) ↦ rw e (omega arith)
  ]

  pub publish_once-hands :
      (key : String) (payload : AvroDict) (a : Attempt Schema) (s : Publisher Schema) (k : String)
      → (publish_once write key payload a s).0 ≡ ok k
      → (message : Bytes) × ((encode write a.answer payload s.registry).0 ≡ ok message)
        × ((publish_once write key payload a s).1.sent ≡ (key, message) ∷ s.sent)
  unfolding publish_once
  publish_once-hands key payload a s k h =
      elim (Result-cases (encode write a.answer payload s.registry).0) [
        | inl (m, e) ↦ elim (Option-cases a.refused) [
          | inl f ↦ (m, e, ground arith)
          | inr (t, f) ↦ absurd (ground arith)
        ]
        | inr (f, e) ↦ absurd (ground arith)
      ]
