-- ===== src/Producer/Service.antt =====
-- The endpoint and the start of the producer, and the loop of the generator:
-- dz_5/producer-service/app/main.py and `generator_loop` of dz_5/producer-service/app/generator.py.
-- The sleep between two batches is left out; the loop is run on the batches that it draws, for as
-- many as are given.
use making_soa_homework.Base.{ℕ, ◌≡◌, refl, if◌then◌else◌, String, List, [], ◌∷◌, arith}
use making_soa_homework.Base.Exec.{Result, ok, err, Exec}
use making_soa_homework.Producer.Events.{MovieEventIn, ValidationError, validate}
use making_soa_homework.Producer.Events.{Stamp, AvroDict}
use making_soa_homework.Producer.Registry.{Bytes}
use making_soa_homework.Producer.Settings.{Settings, defaults}
use making_soa_homework.Producer.Publish.{Attempt, Publisher, PublishError, publish}

pub record PublishResponse : Type 0 where
  pub event_id : ℕ
  pub topic : String
  pub partition_key : String

pub data Refusal : Type 0 where
  invalid_event : ValidationError → Refusal
  http_exception : ℕ → String → Refusal

-- `str(exc)` of a publication's error is an argument (`text`).
module _ {Schema : Type 0} (write : Schema → AvroDict → Result String Bytes) (millis : Stamp → ℕ)
    (field : String) where
  abbrev published :
      (PublishError → String)
      → String
      → MovieEventIn
      → Result PublishError String × Publisher Schema
      → Result Refusal PublishResponse × Publisher Schema
  published text topic e (ok key, s) =
      (ok (record { event_id = e.event_id; topic = topic; partition_key = key }), s)
  published text topic e (err m, s) = (err (http_exception 502 (text m)), s)

  -- `POST /events`; the event is validated before the handler, and 502 is the answer where the last
  -- attempt has raised.
  unfoldable pub create_event :
      (PublishError → String)
      → String
      → MovieEventIn
      → (ℕ → Attempt Schema)
      → Exec Refusal (Publisher Schema) PublishResponse
  create_event text topic event at s = elim (validate event) [
    | ok e ↦ published text topic e (publish write millis field e at s)
    | err m ↦ (err (invalid_event m), s)
  ]

  -- `for event in batch: publisher.safe_publish(event)`, with what the services do for each event.
  unfoldable pub publish_batch :
      List (MovieEventIn × (ℕ → Attempt Schema)) → Exec PublishError (Publisher Schema) (Unit {0})
  publish_batch [] s = (ok tt, s)
  publish_batch ((e, at) ∷ rest) s =
      let (r, s') = publish write millis field e at s in
      elim r [ ok key ↦ publish_batch rest s' | err m ↦ (err m, s') ]

  -- The rounds of the loop; an exception ends it.
  unfoldable pub generator_loop :
      List (List (MovieEventIn × (ℕ → Attempt Schema)))
      → Exec PublishError (Publisher Schema) (Unit {0})
  generator_loop [] s = (ok tt, s)
  generator_loop (batch ∷ batches) s =
      let (r, s') = publish_batch batch s in
      elim r [ ok u ↦ generator_loop batches s' | err m ↦ (err m, s') ]

  -- `startup_event`: the task of the generator, where the settings ask for it.
  unfoldable pub startup_event :
      Settings
      → List (List (MovieEventIn × (ℕ → Attempt Schema)))
      → Exec PublishError (Publisher Schema) (Unit {0})
  unfolding generator_loop
  startup_event settings batches s =
      if settings.generator_enabled then generator_loop batches s else (ok tt, s)

  -- A valid event whose publication returns is answered with its identifier, the topic and the key.
  pub create_event-ok :
      (text : PublishError → String) (topic key : String) (event e : MovieEventIn)
      (at : ℕ → Attempt Schema) (s : Publisher Schema)
      → validate event ≡ ok e
      → (publish write millis field e at s).0 ≡ ok key
      → (create_event text topic event at s).0
        ≡ ok (record { event_id = e.event_id; topic = topic; partition_key = key })
  unfolding create_event
  create_event-ok text topic key event e at s valid done = ground arith

  -- After a batch that raises, the loop publishes nothing of the batches behind it.
  pub generator_loop_ends :
      (batch : List (MovieEventIn × (ℕ → Attempt Schema)))
      (batches : List (List (MovieEventIn × (ℕ → Attempt Schema)))) (s s' : Publisher Schema)
      (m : PublishError)
      → publish_batch batch s ≡ (err m, s')
      → generator_loop (batch ∷ batches) s ≡ (err m, s')
  unfolding generator_loop
  generator_loop_ends batch batches s s' m h = ground arith

  -- With the default settings nothing is generated.
  pub startup_event_default :
      (servers registry : String) (batches : List (List (MovieEventIn × (ℕ → Attempt Schema))))
      (s : Publisher Schema)
      → startup_event (defaults servers registry) batches s ≡ (ok tt, s)
  unfolding startup_event
  startup_event_default servers registry batches s = refl
