-- ===== src/Producer/Publish.antt =====
-- `KafkaPublisher.publish` with its retries: dz_5/producer-service/app/kafka_client.py. The answers
-- of the schema registry, the Avro writer (`write`), the milliseconds of a stamp (`millis`), the Kafka
-- client and the waits of tenacity are outside; what they do in an attempt is an argument.
pub mod Attempts
pub mod Delivery
use text.Mathlib.Text.{◌==◌ as str_eq}
use making_soa_homework.Base.{
  ℕ, Bool, true, false, Option, none, some, List, ◌∷◌, String, if◌then◌else◌,
}
use making_soa_homework.Base.Retry.{five_attempts}
use making_soa_homework.Base.Exec.{Result, ok, err, Exec}
use making_soa_homework.Producer.Events.{Stamp, MovieEventIn, AvroDict, to_avro_dict}
use making_soa_homework.Producer.Registry.{Bytes, Cache, Failure, encode}

-- What the callback has been given when `flush(10)` returns: nothing, where the ten seconds have
-- passed before the broker's answer.
pub data Report : Type 0 where
  acknowledged unreported : Report
  failed : String → Report

-- What the services do in one attempt: the registry answers where it is asked, `producer.produce`
-- may raise, and the callback may be called.
pub record Attempt (Schema : Type 0) : Type 0 where
  pub answer : Result String (ℕ × Schema)
  pub refused : Option String
  pub report : Report

pub data PublishError : Type 0 where
  not_encoded : Failure → PublishError
  not_delivered : String → PublishError

-- What has been handed to the producer: the key and the bytes, the last one first.
abbrev pub Sent : Type 0
Sent = List (String × Bytes)

-- The schema that the registry's client keeps, and what has been sent.
pub record Publisher (Schema : Type 0) : Type 0 where
  pub registry : Cache Schema
  pub sent : Sent

-- `_partition_key`
unfoldable pub partition_key : String → MovieEventIn → String
partition_key field e = if str_eq field "movie_id" then e.movie_id else e.user_id

abbrev reported : Report → String → Result PublishError String
reported acknowledged key = ok key
reported unreported key = ok key
reported (failed m) key = err (not_delivered m)

abbrev pub is_failed : Report → Bool
is_failed acknowledged = false
is_failed unreported = false
is_failed (failed m) = true

module _ {Schema : Type 0} (write : Schema → AvroDict → Result String Bytes) where
  abbrev handed : Attempt Schema → String → Bytes → Exec PublishError (Publisher Schema) String
  handed a key message s = elim a.refused [
    | none ↦ (reported a.report key, record s { sent = (key, message) ∷ s.sent })
    | some m ↦ (err (not_delivered m), s)
  ]

  -- The body of `publish`.
  unfoldable pub publish_once :
      String → AvroDict → Attempt Schema → Exec PublishError (Publisher Schema) String
  unfolding encode
  publish_once key payload a s =
      let (r, registry) = encode write a.answer payload s.registry in
      elim r [
        | ok message ↦ handed a key message (record s { registry = registry })
        | err f ↦ (err (not_encoded f), record s { registry = registry })
      ]

  -- `stop_after_attempt(5)`
  unfoldable pub publish :
      (Stamp → ℕ)
      → String
      → MovieEventIn
      → (ℕ → Attempt Schema)
      → Exec PublishError (Publisher Schema) String
  unfolding to_avro_dict
  publish millis field e at =
      five_attempts (λ i. publish_once (partition_key field e) (to_avro_dict millis e) (at i))
