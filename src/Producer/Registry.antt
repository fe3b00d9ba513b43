-- ===== src/Producer/Registry.antt =====
-- `SchemaRegistryClient`: dz_5/producer-service/app/schema_registry.py. The answer of the registry
-- and fastavro's writer are arguments; a byte is a number below 256.
use making_soa_homework.Base.{
  ℕ, ◌+◌, ◌*◌, ◌/◌, ◌%◌, ◌^◌, ◌≡◌, ap, sym, Option, none, some, String, List, [], ◌∷◌, ◌++◌, arith,
  ltb, if◌then◌else◌, Bool-cases, inl, inr,
}
use making_soa_homework.Base.Exec.{Result, ok, err, Result-cases}

abbrev pub Bytes : Type 0
Bytes = List ℕ

-- What `cached_property` keeps, and what goes wrong.
abbrev pub Cache : Type 0 → Type 0
Cache Schema = Option (ℕ × Schema)

pub data Failure : Type 0 where
  registry_error : String → Failure
  struct_error : Failure
  avro_error : String → Failure

-- `struct.pack(">bI", 0, schema_id)`
unfoldable pub pack_header : ℕ → Result Failure Bytes
pack_header id =
    if ltb id (2 ^ 32)
    then ok (0 ∷ id / 2 ^ 24 % 256 ∷ id / 2 ^ 16 % 256 ∷ id / 2 ^ 8 % 256 ∷ id % 256 ∷ [])
    else err struct_error

-- What a consumer reads of a message: the identifier of its schema, and the rest.
unfoldable pub parse_message : Bytes → Option (ℕ × Bytes)
parse_message (magic ∷ a ∷ b ∷ c ∷ d ∷ rest) =
    if ltb 0 magic then none else some (a * 2 ^ 24 + b * 2 ^ 16 + c * 2 ^ 8 + d, rest)
parse_message _ = none

module _ {Schema P : Type 0} (write : Schema → P → Result String Bytes) where
  -- `latest_schema`: the registry is asked until it has answered once.
  abbrev pub latest_schema :
      Result String (ℕ × Schema) → Cache Schema → Result Failure (ℕ × Schema) × Cache Schema
  latest_schema answer (some s) = (ok s, some s)
  latest_schema (ok s) none = (ok s, some s)
  latest_schema (err m) none = (err (registry_error m), none)

  abbrev written : Bytes → Result String Bytes → Result Failure Bytes
  written header (ok body) = ok (header ++ body)
  written header (err m) = err (avro_error m)

  abbrev framed : ℕ × Schema → P → Result Failure Bytes
  framed (id, schema) payload = elim (pack_header id) [
    | ok header ↦ written header (write schema payload)
    | err e ↦ err e
  ]

  abbrev encoded : Result Failure (ℕ × Schema) → P → Result Failure Bytes
  encoded (ok s) payload = framed s payload
  encoded (err e) payload = err e

  unfoldable pub encode :
      Result String (ℕ × Schema) → P → Cache Schema → Result Failure Bytes × Cache Schema
  unfolding pack_header
  encode answer payload cache =
      let (s, cache') = latest_schema answer cache in (encoded s payload, cache')

  header_parses :
      (id : ℕ) (header body : Bytes)
      → pack_header id ≡ ok header
      → parse_message (header ++ body) ≡ some (id, body)
  unfolding pack_header parse_message
  header_parses id header body h = elim (Bool-cases (ltb id (2 ^ 32))) [
    | inl small ↦
        let e : header
            ≡ 0 ∷ id / 2 ^ 24 % 256 ∷ id / 2 ^ 16 % 256 ∷ id / 2 ^ 8 % 256 ∷ id % 256 ∷ [] =
          ground arith in
        let n : id / 2 ^ 24 % 256 * 2 ^ 24
              + id / 2 ^ 16 % 256 * 2 ^ 16
              + id / 2 ^ 8 % 256 * 2 ^ 8
              + id % 256
            ≡ id =
          ground arith in
        rw e (ap (λ (m : ℕ). some (m, body)) n)
    | inr large ↦ absurd (ground arith)
  ]

  framed-ok :
      (id : ℕ) (schema : Schema) (payload : P) (message : Bytes)
      → framed (id, schema) payload ≡ ok message
      → (body : Bytes) × (write schema payload ≡ ok body)
        × (parse_message message ≡ some (id, body))
  framed-ok id schema payload message h = elim (Result-cases (pack_header id)) [
    | inl (header, e) ↦ elim (Result-cases (write schema payload)) [
      | inl (body, f) ↦
          let g : message ≡ header ++ body = ground arith in
          (body, f, rw g (header_parses id header body e))
      | inr (m, f) ↦ absurd (ground arith)
    ]
    | inr (m, e) ↦ absurd (ground arith)
  ]

  pub record Message (payload : P) (message : Bytes) (cache' : Cache Schema) : Type 0 where
    pub id : ℕ
    pub schema : Schema
    pub body : Bytes
    pub kept : cache' ≡ some (id, schema)
    pub avro : write schema payload ≡ ok body
    pub read : parse_message message ≡ some (id, body)

  -- A message that is encoded is read as the identifier of the schema that the client keeps, and the
  -- payload that is written by it.
  pub encode-Message :
      (answer : Result String (ℕ × Schema)) (payload : P) (cache cache' : Cache Schema)
      (message : Bytes)
      → encode answer payload cache ≡ (ok message, cache')
      → Message payload message cache'
  unfolding encode
  encode-Message answer payload (some (id, schema)) cache' message h =
      let (body, avro, read) = framed-ok id schema payload message (ap (λ q. q.0) h) in
      record {
        id = id;
        schema = schema;
        body = body;
        kept = ap (λ q. q.1) (sym h);
        avro = avro;
        read = read;
      }
  encode-Message (ok (id, schema)) payload none cache' message h =
      let (body, avro, read) = framed-ok id schema payload message (ap (λ q. q.0) h) in
      record {
        id = id;
        schema = schema;
        body = body;
        kept = ap (λ q. q.1) (sym h);
        avro = avro;
        read = read;
      }
  encode-Message (err m) payload none cache' message h = absurd (ground arith)
